-- ===== src/Agents/Tests.antt =====
-- Connections to a hub with one token.
use ravenguard.Common.{
  ℕ, ◌≡◌, refl, Bool, true, false, not, Option, none, some, List, [], ◌∷◌, if◌then◌else◌, bytes,
  str_eq, replicate,
}
use ravenguard.Agents.Registry.{Session, any_is, new_registry}
use ravenguard.Agents.Registry.Worlds.{Event, connected, ended, happen_all, nobody, is_online}
use ravenguard.Agents.Registry.Online.{open-online}
use ravenguard.Agents.Handshake.{TokenLookup, Connect, Hub, handle_connect}
use ravenguard.Agents.Handshake.Granted.{Settles, IsGranted, handle_connect-Settles, session_of}

abbrev agent : Session
agent = record { id = 0; proxy_id = bytes "p"; fingerprint = []; name = []; version = [] }

-- The second session of a proxy replaces the first, whose end comes later.
abbrev story : List Event
story = connected agent ∷ connected agent ∷ ended 0 ∷ []

open-online_example :
    any_is 1 (happen_all story nobody).registry.closed
    ≡ not (is_online (record agent { id = 1 }) (happen_all story nobody).registry)
unfolding happen_all
open-online_example = open-online story 1 (record agent { id = 1 }) refl

second_online : is_online (record agent { id = 1 }) (happen_all story nobody).registry ≡ true
unfolding happen_all
second_online = refl

abbrev one_token : TokenLookup
one_token = record {
  Store = ℕ;
  hash_token = λ t. t;
  lookup_token = λ t store.
      if str_eq t (bytes "secret")
      then some
          (record { proxy_id = bytes "p"; fingerprint = []; name = bytes "n"; universal = false })
      else none;
  bind_fingerprint = λ p f n h store. some store;
  touch_proxy = λ p v store. store;
}

abbrev empty_hub : Hub one_token
empty_hub = record { limit = []; registry = new_registry; store = 0 }

abbrev joining : Connect
joining = record {
  method = bytes "GET";
  ip = bytes "1.2.3.4";
  token = [];
  authorization = bytes "Bearer secret";
  agent_version = [];
  upgraded = true;
  reply =
      some
        (record { fingerprint = replicate 40 b'f'; name = []; hostname = []; version = bytes "2" });
}

abbrev is_some : Option Session → Bool
is_some none = false
is_some (some s) = true

joins : is_some (session_of (handle_connect one_token 0 7 joining empty_hub).1) ≡ true
unfolding handle_connect
joins = refl

handle_connect-Settles_example :
    Settles one_token
      (IsGranted one_token 0 7 joining empty_hub)
      empty_hub
      (handle_connect one_token 0 7 joining empty_hub)
handle_connect-Settles_example = handle_connect-Settles one_token 0 7 joining empty_hub
