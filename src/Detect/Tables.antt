-- ===== src/Detect/Tables.antt =====
-- internal/detect/detect.go: the tables of User-Agents and of paths that are probed.
use ravenguard.Common.{List, [], ◌∷◌, Bytes, bytes}

-- Vulnerability scanners, HTTP libraries, crawlers and automated browsers.
abbrev pub scanner_ua : List Bytes
scanner_ua =
    bytes "sqlmap"
    ∷ bytes "nikto"
    ∷ bytes "nmap"
    ∷ bytes "masscan"
    ∷ bytes "zgrab"
    ∷ bytes "zgrab2"
    ∷ bytes "dirbuster"
    ∷ bytes "gobuster"
    ∷ bytes "wfuzz"
    ∷ bytes "ffuf"
    ∷ bytes "nuclei"
    ∷ bytes "httpx"
    ∷ bytes "acunetix"
    ∷ bytes "nessus"
    ∷ bytes "openvas"
    ∷ bytes "w3af"
    ∷ bytes "burpsuite"
    ∷ bytes "burp/"
    ∷ bytes "python-requests"
    ∷ bytes "python-urllib"
    ∷ bytes "aiohttp"
    ∷ bytes "go-http-client"
    ∷ bytes "scrapy"
    ∷ bytes "curl/"
    ∷ bytes "wget/"
    ∷ bytes "libwww-perl"
    ∷ bytes "libcurl"
    ∷ bytes "java/"
    ∷ bytes "okhttp"
    ∷ bytes "apache-httpclient"
    ∷ bytes "axios/"
    ∷ bytes "node-fetch"
    ∷ bytes "undici"
    ∷ bytes "postmanruntime"
    ∷ bytes "insomnia/"
    ∷ bytes "phantomjs"
    ∷ bytes "headlesschrome"
    ∷ bytes "puppeteer"
    ∷ bytes "playwright"
    ∷ bytes "selenium"
    ∷ bytes "chromedriver"
    ∷ bytes "geckodriver"
    ∷ bytes "crawl4ai"
    ∷ bytes "firecrawl"
    ∷ bytes "browser-use"
    ∷ bytes "scrapling"
    ∷ bytes "httrack"
    ∷ bytes "semrush"
    ∷ bytes "ahrefs"
    ∷ bytes "mj12bot"
    ∷ bytes "dotbot"
    ∷ bytes "petalbot"
    ∷ bytes "dataforseobot"
    ∷ bytes "serpstat"
    ∷ bytes "majestic"
    ∷ bytes "rogerbot"
    ∷ bytes "screaming frog"
    ∷ bytes "seokicks"
    ∷ bytes "blexbot"
    ∷ bytes "linkdexbot"
    ∷ bytes "xrumer"
    ∷ bytes "scrapebox"
    ∷ bytes "gsa ser"
    ∷ bytes "senukai"
    ∷ bytes "magic submitter"
    ∷ bytes "sape_api"
    ∷ bytes "botasaurus"
    ∷ bytes "nodriver"
    ∷ bytes "zendriver"
    ∷ bytes "camoufox"
    ∷ bytes "seleniumbase"
    ∷ bytes "undetected_chromedriver"
    ∷ bytes "uc_chrome"
    ∷ bytes "rebrowser"
    ∷ bytes "browserless"
    ∷ bytes "steel-browser"
    ∷ bytes "skyvern"
    ∷ bytes "langchain"
    ∷ bytes "crewai"
    ∷ bytes "autogen/"
    ∷ bytes "openai-agents"
    ∷ bytes "apify"
    ∷ bytes "lightpanda"
    ∷ bytes "crawlspace"
    ∷ bytes "brightbot"
    ∷ bytes "awario"
    ∷ bytes "hyperagent"
    ∷ bytes "hyperbrowser"
    ∷ bytes "browserbase"
    ∷ bytes "anchor-browser"
    ∷ bytes "browsercat"
    ∷ bytes "scrapybara"
    ∷ bytes "self-operating-computer"
    ∷ []

-- Crawlers and agents of AI services.
abbrev pub ai_ua : List Bytes
ai_ua =
    bytes "gptbot"
    ∷ bytes "chatgpt-user"
    ∷ bytes "oai-searchbot"
    ∷ bytes "chatgpt-atlas"
    ∷ bytes "claudebot"
    ∷ bytes "claude-user"
    ∷ bytes "claude-searchbot"
    ∷ bytes "claude-web"
    ∷ bytes "claude-code"
    ∷ bytes "anthropic-ai"
    ∷ bytes "anthropic/"
    ∷ bytes "bytespider"
    ∷ bytes "ccbot"
    ∷ bytes "google-extended"
    ∷ bytes "google-agent"
    ∷ bytes "google-cloudvertexbot"
    ∷ bytes "googleagent-mariner"
    ∷ bytes "googleother"
    ∷ bytes "meta-externalagent"
    ∷ bytes "meta-externalfetcher"
    ∷ bytes "facebookbot"
    ∷ bytes "facebookexternalhit"
    ∷ bytes "perplexitybot"
    ∷ bytes "perplexity-user"
    ∷ bytes "amazonbot"
    ∷ bytes "cohere-ai"
    ∷ bytes "ai2bot"
    ∷ bytes "diffbot"
    ∷ bytes "youbot"
    ∷ bytes "omgili"
    ∷ bytes "omgilibot"
    ∷ bytes "webzio"
    ∷ bytes "imagesiftbot"
    ∷ bytes "applebot-extended"
    ∷ bytes "mistralai-user"
    ∷ bytes "duckassistbot"
    ∷ bytes "timpibot"
    ∷ bytes "pangubot"
    ∷ bytes "kangaroo bot"
    ∷ bytes "kangaroobot"
    ∷ bytes "deepseekbot"
    ∷ bytes "qwenbot"
    ∷ bytes "iaskspider"
    ∷ bytes "phindbot"
    ∷ bytes "notebooklm"
    ∷ bytes "gemini-deep-research"
    ∷ bytes "cohere-training-data-crawler"
    ∷ bytes "mistralai-training"
    ∷ bytes "mistralai-index"
    ∷ bytes "meta-webindexer"
    ∷ bytes "amazon-kendra"
    ∷ bytes "amazon-qbusiness"
    ∷ bytes "aiwebindex"
    ∷ bytes "aihitbot"
    ∷ bytes "img2dataset"
    ∷ bytes "laiondownloader"
    ∷ bytes "panscient"
    ∷ bytes "yandexadditional"
    ∷ bytes "terracotta"
    ∷ bytes "sbintuitionsbot"
    ∷ bytes "mycentralaiscraperbot"
    ∷ bytes "chatgpt agent"
    ∷ bytes "oai-adsbot"
    ∷ bytes "manus-user"
    ∷ bytes "novaact"
    ∷ bytes "devin"
    ∷ bytes "cursor"
    ∷ bytes "opencode"
    ∷ bytes "qodercli"
    ∷ bytes "trae"
    ∷ bytes "google-gemini-cli"
    ∷ bytes "googleagent-urlcontext"
    ∷ bytes "exasearchbot"
    ∷ bytes "tavilybot"
    ∷ bytes "linerbot"
    ∷ bytes "linkupbot"
    ∷ bytes "kagi-fetcher"
    ∷ bytes "querit"
    ∷ bytes "addsearchbot"
    ∷ bytes "aranet-searchbot"
    ∷ bytes "bedrockbot"
    ∷ bytes "azureai-searchbot"
    ∷ bytes "quillbot"
    ∷ bytes "poseidon research crawler"
    ∷ bytes "poggio-citations"
    ∷ bytes "wpbot"
    ∷ bytes "wrtnbot"
    ∷ bytes "kimibot"
    ∷ bytes "kimi-user"
    ∷ bytes "kimi-agent"
    ∷ bytes "kimi-searchbot"
    ∷ bytes "doubaobot"
    ∷ bytes "erniebot"
    ∷ bytes "yiyanbot"
    ∷ bytes "tongyibot"
    ∷ bytes "chatglm-spider"
    ∷ bytes "tiktokspider"
    ∷ bytes "amzn-user"
    ∷ bytes "amazonbuyforme"
    ∷ bytes "echoboxbot"
    ∷ bytes "andibot"
    ∷ bytes "bixelbot"
    ∷ bytes "buddybot"
    ∷ bytes "cotoyogi"
    ∷ bytes "cragcrawler"
    ∷ bytes "agentdatabot"
    ∷ bytes "agenttimes"
    ∷ bytes "atlassian-bot"
    ∷ bytes "nagetbot"
    ∷ bytes "zanistabot"
    ∷ bytes "aiwebindex"
    ∷ bytes "lyrenth"
    ∷ bytes "swurl"
    ∷ bytes "rarebot"
    ∷ []

-- Paths that scanners ask for.
abbrev pub probe_paths : List Bytes
probe_paths =
    bytes "/.env"
    ∷ bytes "/wp-admin"
    ∷ bytes "/wp-login"
    ∷ bytes "/xmlrpc.php"
    ∷ bytes "/phpmyadmin"
    ∷ bytes "/.git"
    ∷ bytes "/admin"
    ∷ bytes "/actuator"
    ∷ bytes "/server-status"
    ∷ bytes "/cgi-bin"
    ∷ bytes "/vendor/phpunit"
    ∷ bytes "/etc/passwd"
    ∷ bytes "/.aws"
    ∷ bytes "/api/v1/admin"
    ∷ bytes "/console"
    ∷ bytes "/manager/html"
    ∷ bytes "/owa/"
    ∷ bytes "/hnap1"
    ∷ bytes "/.svn"
    ∷ bytes "/.hg"
    ∷ bytes "/.bzr"
    ∷ bytes "/.ds_store"
    ∷ bytes "/.vscode"
    ∷ bytes "/.idea"
    ∷ bytes "/.npmrc"
    ∷ bytes "/.ssh"
    ∷ bytes "/composer.json"
    ∷ bytes "/vendor/composer"
    ∷ bytes "/server-info"
    ∷ bytes "/phpinfo"
    ∷ bytes "/boaform"
    ∷ bytes "/hudson"
    ∷ bytes "/jmx-console"
    ∷ bytes "/elmah"
    ∷ bytes "/debug/vars"
    ∷ bytes "/debug/pprof"
    ∷ bytes "/wp-login"
    ∷ bytes "/xmlrpc.php"
    ∷ bytes "/host-manager"
    ∷ bytes "/druid"
    ∷ bytes "/nacos"
    ∷ bytes "/geoserver"
    ∷ bytes "/actuator/env"
    ∷ bytes "/actuator/heapdump"
    ∷ bytes "/actuator/beans"
    ∷ bytes "/db.sql"
    ∷ bytes "/dump.sql"
    ∷ bytes "/backup.sql"
    ∷ bytes "/backup.zip"
    ∷ bytes "/backup.tar"
    ∷ bytes "/wp-config"
    ∷ bytes "/shell.php"
    ∷ bytes "/cmd.php"
    ∷ bytes "/up.php"
    ∷ bytes "/c99"
    ∷ bytes "/r57"
    ∷ bytes "/webshell"
    ∷ []
