-- ===== src/Detect/Crawler/Verdicts.antt =====
-- internal/detect/crawler.go: what the verdict of verify says of the answers of the resolver.
use ravenguard.Common.{
  ◌≡◌, ◌↔◌, refl, Bool, true, false, ◌&&◌, ◌||◌, not, Option, none, some, List, [], ◌∷◌,
  if◌then◌else◌, Bytes, arith,
}
use ravenguard.Detect.Crawler.{
  CrawlerVerdict, unknown, verified, spoofed, suffix_allowed, host_name, skip, elsewhere, confirmed,
  after_turn, any_equal, forward, verify_names, verify,
}

-- A test holds for one of some names.
unfoldable pub any_name : (Bytes → Bool) → List Bytes → Bool
any_name p [] = false
any_name p (n ∷ ns) = p n || any_name p ns

-- The verdict of the three answers: whether a name is confirmed, allowed, resolved.
abbrev pub weighed : Bool → Bool → Bool → CrawlerVerdict
weighed confirms allowed resolves =
    if confirms
    then verified
    else if not allowed
    then spoofed
    else if not resolves
    then unknown
    else spoofed

-- The three verdicts, each exactly for its answers.
pub record Weighs (confirms allowed resolves : Bool) (v : CrawlerVerdict) : Type 0 where
  pub is_verified : (v ≡ verified) ↔ (confirms ≡ true)
  pub is_spoofed : (v ≡ spoofed) ↔ ((confirms ≡ false) × ((allowed && not resolves) ≡ false))
  pub is_unknown : (v ≡ unknown) ↔ ((confirms ≡ false) × (allowed ≡ true) × (resolves ≡ false))

weighed-Weighs : (c a r : Bool) → Weighs c a r (weighed c a r)
weighed-Weighs c a r = record {
  is_verified = (λ e. ground (arith, e), λ e. ground (arith, e));
  is_spoofed = (λ e. ground (arith, e), λ e. ground (arith, e));
  is_unknown = (λ e. ground (arith, e), λ e. ground (arith, e));
}

module _ {Ip : Type 0} (equal : Ip → Ip → Bool) (lookup_ip : Bytes → Option (List Ip)) (ip : Ip)
    (suffixes : List Bytes) where
  abbrev pub known : Option (List Ip) → Bool
  known none = false
  known (some ips) = true

  abbrev pub leads_back : Option (List Ip) → Bool
  leads_back none = false
  leads_back (some ips) = any_equal equal lookup_ip ip ips

  -- A name that ends in a suffix of the operator; one that resolves, too; one that resolves to the
  -- address of the client.
  abbrev pub allowed : Bytes → Bool
  allowed raw = suffix_allowed (host_name raw) suffixes

  abbrev pub resolves : Bytes → Bool
  resolves raw = allowed raw && known (lookup_ip (host_name raw))

  abbrev pub confirms : Bytes → Bool
  confirms raw = allowed raw && leads_back (lookup_ip (host_name raw))

  step_found :
      (next : Bool → Bool → CrawlerVerdict) (c a r : Bool)
      → ((ss sf : Bool) → next ss sf ≡ weighed c (ss || a) (sf || r))
      → (back ss sf : Bool)
      → after_turn (if back then confirmed else elsewhere) next ss sf
        ≡ weighed (back || c) (ss || true) (sf || true)
  step_found next c a r h true ss sf = refl
  step_found next c a r h false true true = h true true
  step_found next c a r h false true false = h true true
  step_found next c a r h false false true = h true true
  step_found next c a r h false false false = h true true

  step_lem :
      (next : Bool → Bool → CrawlerVerdict) (c a r : Bool)
      → ((ss sf : Bool) → next ss sf ≡ weighed c (ss || a) (sf || r))
      → (ok : Bool) (o : Option (List Ip)) (ss sf : Bool)
      → after_turn (if ok then forward equal lookup_ip ip o else skip) next ss sf
        ≡ weighed ((ok && leads_back o) || c) (ss || (ok || a)) (sf || ((ok && known o) || r))
  step_lem next c a r h false o ss sf = h ss sf
  step_lem next c a r h true none true sf = h true sf
  step_lem next c a r h true none false sf = h true sf
  step_lem next c a r h true (some ips) ss sf =
      step_found next c a r h (any_equal equal lookup_ip ip ips) ss sf

  verify_names-weighed :
      (names : List Bytes) (ss sf : Bool)
      → verify_names equal lookup_ip ip suffixes names ss sf
        ≡ weighed
            (any_name confirms names)
            (ss || any_name allowed names)
            (sf || any_name resolves names)
  unfolding verify_names any_name
  verify_names-weighed [] true true = refl
  verify_names-weighed [] true false = refl
  verify_names-weighed [] false true = refl
  verify_names-weighed [] false false = refl
  verify_names-weighed (raw ∷ names) ss sf =
      step_lem (verify_names equal lookup_ip ip suffixes names) (any_name confirms names)
        (any_name allowed names) (any_name resolves names) (verify_names-weighed names)
        (allowed raw) (lookup_ip (host_name raw)) ss sf

  -- What the answer of the reverse lookup makes of a verdict.
  abbrev pub Accords : Option (List Bytes) → CrawlerVerdict → Type 0
  Accords none v = v ≡ unknown
  Accords (some names) v =
      Weighs (any_name confirms names) (any_name allowed names) (any_name resolves names) v

  answered :
      (o : Option (List Bytes))
      → Accords o (elim o [
        | none ↦ unknown
        | some names ↦ verify_names equal lookup_ip ip suffixes names false false
      ])
  answered none = refl
  answered (some names) =
      rw (verify_names-weighed names false false) (
        weighed-Weighs (any_name confirms names) (any_name allowed names) (any_name resolves names))

  -- verify answers with Verified exactly if a name of the reverse lookup ends in a suffix of the
  -- operator and resolves to the address; with Spoofed exactly if none does and either no name ends in
  -- a suffix or one that does resolves; and with Unknown exactly if the reverse lookup fails, or names
  -- end in a suffix and none of them resolves.
  pub verify-Accords :
      (lookup_addr : Ip → Option (List Bytes)) (spec_name : Bytes)
      → Accords
          (lookup_addr ip)
          (verify equal lookup_ip lookup_addr ip record { ua_sub = spec_name; suffixes = suffixes })
  unfolding verify
  verify-Accords lookup_addr spec_name = answered (lookup_addr ip)
