-- ===== src/IpUtil/Forwarded.antt =====
-- internal/iputil/iputil.go: the loop of ClientIP against the list of hops in the header.
use mathlib.Core.List.{reverse, reverse-append, reverse-reverse, append_assoc, append-nil}
use ravenguard.Common.{
  ℕ, ◌≡◌, refl, sym, ap, ◌∙◌, inl, inr, true, false, Option, none, some, List, [], ◌∷◌, ◌++◌, ◌==◌,
  Bytes, bytes, str_eq, str_eq_iff, arith, Bool-cases, ==_iff, ◌⊎◌, Option-cases,
}
use ravenguard.Common.Net.{Net}
use ravenguard.Common.Strings.{split}
use ravenguard.Common.Strings.Parts.{IsFree, joined, split-IsFree, split-append}
use ravenguard.Faststr.{equal_fold_ascii, trim_blanks}
use ravenguard.IpUtil.{
  Request, comma, parse_ip, is_trusted, first_of, untrusted, unless_trusted, from_end, answer,
  client_ip,
}

module _ (net : Net) where
  -- One of some networks holds an address, or none does.
  abbrev pub Inside : List net.Cidr → net.Ip → Type 0
  Inside [] ip = ⊥
  Inside (n ∷ ns) ip = (net.holds n ip ≡ true) ⊎ Inside ns ip

  abbrev pub Outside : List net.Cidr → net.Ip → Type 0
  Outside ns ip = ¬ Inside ns ip

  -- The first address of a list of hops that is outside of some networks; hops that are no address
  -- and those inside are passed over.
  pub data FirstHop (ns : List net.Cidr) : List Bytes → Option net.Ip → Type 0 where
    no_hop : FirstHop ns [] none
    no_address :
        {p : Bytes} {ps : List Bytes} {o : Option net.Ip}
        → parse_ip net (trim_blanks p) ≡ none
        → FirstHop ns ps o
        → FirstHop ns (p ∷ ps) o
    passed_over :
        {p : Bytes} {ps : List Bytes} {o : Option net.Ip} {ip : net.Ip}
        → parse_ip net (trim_blanks p) ≡ some ip
        → Inside ns ip
        → FirstHop ns ps o
        → FirstHop ns (p ∷ ps) o
    answers :
        {p : Bytes} {ps : List Bytes} {ip : net.Ip}
        → parse_ip net (trim_blanks p) ≡ some ip
        → Outside ns ip
        → FirstHop ns (p ∷ ps) (some ip)

  -- The address of a hop, or that of the connection if there is none.
  abbrev pub or_remote : Option net.Ip → net.Ip → Option net.Ip
  or_remote none remote = some remote
  or_remote (some ip) remote = some ip

  is_trusted-Inside :
      (ip : net.Ip) (ns : List net.Cidr) → is_trusted net ip ns ≡ true → Inside ns ip
  unfolding is_trusted
  is_trusted-Inside ip [] h = absurd (ground (arith, h))
  is_trusted-Inside ip (n ∷ ns) h = elim (Bool-cases (net.holds n ip)) [
    | inl p ↦ inl p
    | inr p ↦ inr (is_trusted-Inside ip ns (ground (arith, h, p)))
  ]

  Inside-is_trusted :
      (ip : net.Ip) (ns : List net.Cidr) → Inside ns ip → is_trusted net ip ns ≡ true
  unfolding is_trusted
  Inside-is_trusted ip [] h = absurd h
  Inside-is_trusted ip (n ∷ ns) (inl h) = rw h refl
  Inside-is_trusted ip (n ∷ ns) (inr h) = ground (arith, Inside-is_trusted ip ns h)

  is_trusted-Outside :
      (ip : net.Ip) (ns : List net.Cidr) → is_trusted net ip ns ≡ false → Outside ns ip
  is_trusted-Outside ip ns h inside =
      let yes = Inside-is_trusted ip ns inside in absurd (ground (arith, h, yes))

module _ (net : Net) (trusted : List net.Cidr) where
  -- The first address of a list of hops that is not trusted.
  abbrev pub first_hop : List Bytes → Option net.Ip
  first_hop [] = none
  first_hop (p ∷ ps) = first_of net (untrusted net trusted p) (first_hop ps)

  untrusted-address :
      (p : Bytes)
      → untrusted net trusted p ≡ unless_trusted net trusted (parse_ip net (trim_blanks p))
  unfolding untrusted
  untrusted-address p = elim (Bool-cases (str_eq (trim_blanks p) [])) [
    | inl e ↦
        let empty : trim_blanks p ≡ [] = (str_eq_iff (trim_blanks p) []).0 e in
        rw (e, empty, no_text) refl
    | inr e ↦ rw e refl
  ]
    where
      no_text : parse_ip net [] ≡ none
      no_text = refl

  hop-FirstHop :
      (p : Bytes) (ps : List Bytes) (o : Option net.Ip)
      → FirstHop net trusted ps o
      → FirstHop net trusted (p ∷ ps) (first_of net (untrusted net trusted p) o)
  hop-FirstHop p ps o rest = elim (Option-cases (parse_ip net (trim_blanks p))) [
    | inl e ↦ rw (untrusted-address p, e) (no_address e rest)
    | inr (ip, e) ↦ elim (Bool-cases (is_trusted net ip trusted)) [
      | inl t ↦
          rw (untrusted-address p, e, t) (passed_over e (is_trusted-Inside net ip trusted t) rest)
      | inr t ↦ rw (untrusted-address p, e, t) (answers e (is_trusted-Outside net ip trusted t))
    ]
  ]

  pub first_hop-FirstHop : (ps : List Bytes) → FirstHop net trusted ps (first_hop ps)
  first_hop-FirstHop [] = no_hop
  first_hop-FirstHop (p ∷ ps) = hop-FirstHop p ps (first_hop ps) (first_hop-FirstHop ps)

  first_of-none : (o : Option net.Ip) → first_of net o none ≡ o
  first_of-none none = refl
  first_of-none (some ip) = refl

  -- The text behind one byte of a reversed text.
  behind_byte : (c : ℕ) (s p : Bytes) → reverse (c ∷ s) ++ p ≡ joined c (reverse s) p
  behind_byte c s p =
      ap (λ t. t ++ p) (reverse-append (c ∷ []) s) ∙ append_assoc (reverse s) (c ∷ []) p

  from_end-split :
      (r p : Bytes)
      → IsFree comma p
      → from_end net trusted r p ≡ first_hop (reverse (split comma (reverse r ++ p)))
  unfolding from_end
  from_end-split [] p h =
      rw (split-IsFree comma p h) (sym (first_of-none (untrusted net trusted p)))
  from_end-split (c ∷ s) p h = elim (Bool-cases (c == comma)) [
    | inl mark ↦
        let at_comma : reverse (c ∷ s) ++ p ≡ joined comma (reverse s) p =
          behind_byte c s p ∙ ap (λ (d : ℕ). joined d (reverse s) p) ((==_iff c comma).0 mark) in
        let rest : from_end net trusted s [] ≡ first_hop (reverse (split comma (reverse s))) =
          from_end-split s [] tt
          ∙ ap (λ t. first_hop (reverse (split comma t))) (append-nil (reverse s)) in
        rw (
          mark,
          at_comma,
          split-append comma (reverse s) p h,
          reverse-append (split comma (reverse s)) (p ∷ []),
          rest,
        )
    | inr other ↦ rw (other, behind_byte c s p) (from_end-split s (c ∷ p) (other, h))
  ]

  first_of-some :
      (a b b' : Option net.Ip) (ip : net.Ip)
      → first_of net a b ≡ some ip
      → (b ≡ some ip → b' ≡ some ip)
      → first_of net a b' ≡ some ip
  first_of-some none b b' ip e h = h e
  first_of-some (some a) b b' ip e h = e

  from_end-append :
      (r s p : Bytes) (ip : net.Ip)
      → from_end net trusted r p ≡ some ip
      → from_end net trusted (r ++ comma ∷ s) p ≡ some ip
  unfolding from_end
  from_end-append [] s p ip e = rw e
  from_end-append (c ∷ r) s p ip e = elim (Bool-cases (c == comma)) [
    | inl mark ↦ rw mark (
        first_of-some (untrusted net trusted p) (from_end net trusted r []) _ ip
          (ground (arith, e, mark)) (λ k. from_end-append r s [] ip k))
    | inr other ↦ rw other (from_end-append r s (c ∷ p) ip (ground (arith, e, other)))
  ]

abbrev pub forwarded_for : Bytes
forwarded_for = bytes "X-Forwarded-For"

module _ (net : Net) (trusted : List net.Cidr) (r : Request) (remote : net.Ip)
    (connected : parse_ip net r.remote_addr ≡ some remote) where
  from_end-hops :
      (raw : Bytes)
      → from_end net trusted (reverse raw) [] ≡ first_hop net trusted (reverse (split comma raw))
  from_end-hops raw =
      from_end-split net trusted (reverse raw) [] tt
      ∙ ap (λ t. first_hop net trusted (reverse (split comma t)))
          (append-nil (reverse (reverse raw)) ∙ reverse-reverse raw)

  answer-trusted :
      (raw : Bytes)
      → is_trusted net remote trusted ≡ true
      → answer net trusted forwarded_for raw remote
        ≡ first_of net (from_end net trusted (reverse raw) []) (some remote)
  unfolding answer equal_fold_ascii str_eq
  answer-trusted [] t = rw t
  answer-trusted (c ∷ s) t = rw t

  behind_proxy :
      is_trusted net remote trusted ≡ true
      → client_ip net r trusted forwarded_for
        ≡ first_of net (from_end net trusted (reverse (r.header forwarded_for)) []) (some remote)
  unfolding client_ip
  behind_proxy t = rw connected (answer-trusted (r.header forwarded_for) t)

  direct :
      is_trusted net remote trusted ≡ false → client_ip net r trusted forwarded_for ≡ some remote
  unfolding client_ip answer
  direct t = rw (connected, t)

  first_of-or_remote : (o : Option net.Ip) → first_of net o (some remote) ≡ or_remote net o remote
  first_of-or_remote none = refl
  first_of-or_remote (some ip) = refl

  -- With X-Forwarded-For as its header, ClientIP answers with the address of the connection if no
  -- trusted network holds it; and else with the last hop of the header that is an address outside of
  -- the trusted networks, or with the address of the connection if there is no such hop.
  pub client_ip-hops :
      (Outside net trusted remote × (client_ip net r trusted forwarded_for ≡ some remote))
      ⊎ (Inside net trusted remote
          × ((o : Option net.Ip) × FirstHop net trusted
                (reverse (split comma (r.header forwarded_for)))
                o
              × (client_ip net r trusted forwarded_for ≡ or_remote net o remote)))
  client_ip-hops = elim (Bool-cases (is_trusted net remote trusted)) [
    | inl t ↦
        let hops = reverse (split comma (r.header forwarded_for)) in
        let found = from_end-hops (r.header forwarded_for) in
        inr (
          is_trusted-Inside net remote trusted t,
          (
            first_hop net trusted hops,
            first_hop-FirstHop net trusted hops,
            behind_proxy t
                ∙ (ap (λ (o : Option net.Ip). first_of net o (some remote)) found
                    ∙ first_of-or_remote (first_hop net trusted hops)),
          ),
        )
    | inr t ↦ inl (is_trusted-Outside net remote trusted t, direct t)
  ]

  -- What a client writes at the front of the header changes nothing: behind a trusted proxy, the address
  -- that the hops behind it give is the answer.
  pub client_ip-appended :
      (front hops : Bytes) (ip : net.Ip)
      → is_trusted net remote trusted ≡ true
      → r.header forwarded_for ≡ joined comma front hops
      → first_hop net trusted (reverse (split comma hops)) ≡ some ip
      → client_ip net r trusted forwarded_for ≡ some ip
  client_ip-appended front hops ip t e found =
      let at_end : from_end net trusted (reverse hops ++ comma ∷ reverse front) [] ≡ some ip =
        from_end-append net trusted (reverse hops) (reverse front) [] ip
          (from_end-hops hops ∙ found) in
      let whole : reverse (joined comma front hops) ≡ reverse hops ++ comma ∷ reverse front =
        reverse-append front (comma ∷ hops)
        ∙ (ap (λ t. t ++ reverse front) (reverse-append (comma ∷ []) hops)
            ∙ append_assoc (reverse hops) (comma ∷ []) (reverse front)) in
      rw (behind_proxy t, e, whole, at_end)
