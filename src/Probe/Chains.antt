-- ===== src/Probe/Chains.antt =====
-- Whole probes: the connections, the URLs and the redirects of a chain.
use ai_cyber_security_suite.Prelude.{
  ℕ, zero, suc, ◌+◌, ◌≤◌, ◌<◌, ◌≡◌, ◌⊎◌, refl, ap, inl, inr, true, false, Option, none, some, List,
  [], ◌∷◌, ◌++◌, map, any, length, take, All, All-mono, All-take, any-snoc, arith, Bool-cases,
  clash,
}
use ai_cyber_security_suite.Containment.Allowlist.{text_eq}
use ai_cyber_security_suite.Network.{Address, Library}
use ai_cyber_security_suite.Network.Hosts.Resolution.{IsUnique, text_eq_refl}
use ai_cyber_security_suite.Network.Urls.{text_eq_sound}
use ai_cyber_security_suite.Probe.{
  World, Connection, Ending, reports, fails, Hop, ends, follows, hop, probe_hops, probe_inner,
  probe, after, prepend, max_redirects,
}
use ai_cyber_security_suite.Probe.Hops.{IsConfined, Counts, IsSound, hop-IsSound}

urls : List Connection → List (List ℕ)
urls cs = map (λ c. c.url) cs

-- A URL of the chain so far is not visited again, but for the current one.
abbrev Fresh : List ℕ → List (List ℕ) → Connection → Type 0
Fresh url chain c = (c.url ≡ url) ⊎ (any (text_eq c.url) chain ≡ false)

record Travels (l : Library) (ports : List ℕ) (n : ℕ) (url : List ℕ) (count : ℕ)
    (chain : List (List ℕ)) (r : List Connection × Ending) : Type 0 where
  confined : All (IsConfined l ports) r.0
  bounded : length r.0 ≤ n
  agrees : Counts count r.0 r.1
  fresh : All (Fresh url chain) r.0
  once : IsUnique (map (λ c. c.url) r.0)

any-snoc_inv :
    (x y : List ℕ) (xs : List (List ℕ))
    → any (text_eq x) (xs ++ y ∷ []) ≡ false
    → any (text_eq x) xs ≡ false
any-snoc_inv x y [] h = refl
any-snoc_inv x y (z ∷ zs) h = ground (arith, any-snoc_inv x y zs)

-- What comes after a redirect to `next` visits no URL of the chain.
older :
    (next : List ℕ) (chain : List (List ℕ)) (c : Connection)
    → any (text_eq next) chain ≡ false
    → Fresh next (chain ++ next ∷ []) c
    → any (text_eq c.url) chain ≡ false
older next chain c new (inl same) = rw same new
older next chain c new (inr out) = any-snoc_inv c.url next chain out

unseen :
    (url : List ℕ) (chain : List (List ℕ)) (cs : List Connection)
    → any (text_eq url) chain ≡ true
    → All (λ c. any (text_eq c.url) chain ≡ false) cs
    → any (text_eq url) (map (λ c. c.url) cs) ≡ false
unseen url chain [] seen h = refl
unseen url chain (c ∷ cs) seen h = elim (Bool-cases (text_eq url c.url)) [
  | inl e ↦ absurd (clash _ seen (rw (text_eq_sound url c.url e) h.0))
  | inr e ↦ rw e (unseen url chain cs seen h.1)
]

Counts-next :
    (count : ℕ) (c : Connection) (cs : List Connection) (e : Ending)
    → Counts (count + 1) cs e
    → Counts count (c ∷ cs) e
Counts-next count c cs fails h = tt
Counts-next count c cs (reports r) (a, b, d, f) =
    (a, omega arith, omega arith, λ s. omega (arith, f s))

module _ (l : Library) (ports : List ℕ) where
  after-Travels :
      (n : ℕ) (url : List ℕ) (count : ℕ) (chain : List (List ℕ)) (h : Hop)
      (go_on : List ℕ → List Connection × Ending)
      → any (text_eq url) chain ≡ true
      → IsSound l ports url count chain h
      → ((next : List ℕ)
          → count < max_redirects
          → Travels l ports n next (count + 1) (chain ++ next ∷ []) (go_on next))
      → Travels l ports (suc n) url count chain (after h go_on)
  after-Travels n url count chain (ends cs e) go_on seen (good, few, counts) f = record {
    confined = All-mono _ (IsConfined l ports) (λ c k. k.0) cs good;
    bounded = omega arith;
    agrees = counts;
    fresh = All-mono _ (Fresh url chain) (λ c k. inl k.1) cs good;
    once = at_most_one cs few;
  }
    where
      at_most_one : (cs : List Connection) → length cs ≤ 1 → IsUnique (map (λ c. c.url) cs)
      at_most_one [] k = tt
      at_most_one (c ∷ []) k = (refl, tt)
      at_most_one (c ∷ d ∷ ds) k = absurd (omega arith)
  after-Travels n url count chain (follows c next) go_on seen (good, here, new, less) f =
      let rest = f next less in
      let old =
        All-mono _ (λ d. any (text_eq d.url) chain ≡ false) (λ d k. older next chain d new k)
          (go_on next).0 rest.fresh in
      record {
        confined = (good, rest.confined);
        bounded = omega (arith, rest.bounded);
        agrees = Counts-next count c (go_on next).0 (go_on next).1 rest.agrees;
        fresh = (inl here, All-mono _ (Fresh url chain) (λ d k. inr k) (go_on next).0 old);
        once = (rw here (unseen url chain (go_on next).0 seen old), rest.once);
      }

take-le : (k : ℕ) (cs : List Connection) → length (take k cs) ≤ length cs
take-le zero cs = omega arith
take-le (suc k) [] = omega arith
take-le (suc k) (c ∷ cs) = omega (arith, take-le k cs)

module _ (l : Library) (reads : (a : Address) → l.ip_address (l.strip (l.show a)) ≡ some a)
    (ports : List ℕ) (w : World) where
  probe_hops-Travels :
      (n : ℕ) (url : List ℕ) (count : ℕ) (chain : List (List ℕ))
      → n + count ≡ max_redirects + 1
      → count ≤ max_redirects
      → any (text_eq url) chain ≡ true
      → Travels l ports n url count chain (probe_hops l ports w n url count chain)
  unfolding probe_hops
  probe_hops-Travels zero url count chain all few seen = absurd (omega arith)
  probe_hops-Travels (suc n) url count chain all few seen =
      after-Travels l ports n url count chain (hop l ports w url count chain)
        (λ next. probe_hops l ports w n next (count + 1) (chain ++ next ∷ [])) seen
        (hop-IsSound l reads ports w url count chain few)
        (λ next less.
          probe_hops-Travels n next (count + 1) (chain ++ next ∷ []) (omega arith) (omega arith)
            (any-snoc (text_eq next) chain next (text_eq_refl next)))

  inner-Travels : (url : List ℕ) → Travels l ports 4 url 0 (url ∷ []) (probe_inner l ports w url)
  unfolding probe_inner
  inner-Travels url =
      probe_hops-Travels 4 url 0 (url ∷ []) refl (omega arith) (rw (text_eq_refl url) refl)

  -- A probe connects at most four times, and only to addresses outside the blocked ranges and at
  -- allowed ports, whatever the resolver answers at each hop, wherever the servers redirect to and
  -- whenever the time limit cuts it off; the text of an address must be read back as the address.
  pub probe-IsConfined :
      (cut : Option ℕ) (url : List ℕ)
      → All (IsConfined l ports) (probe l ports w cut url).0
        × (length (probe l ports w cut url).0 ≤ 4)
  unfolding probe
  probe-IsConfined none url = ((inner-Travels url).confined, (inner-Travels url).bounded)
  probe-IsConfined (some k) url =
      let t = inner-Travels url in
      let cs = (probe_inner l ports w url).0 in
      (All-take (IsConfined l ports) k cs t.confined, omega (arith, take-le k cs, t.bounded))

  -- A probe that the time limit does not cut off opens no URL twice and reports at most three
  -- redirects: as many as connections or one less, and as many where a URL was refused.
  pub probe_inner-Counts :
      (url : List ℕ)
      → IsUnique (map (λ c. c.url) (probe_inner l ports w url).0)
        × Counts 0 (probe_inner l ports w url).0 (probe_inner l ports w url).1
  probe_inner-Counts url = ((inner-Travels url).once, (inner-Travels url).agrees)

  after-same :
      (url : List ℕ) (count : ℕ) (chain : List (List ℕ)) (h : Hop)
      (f g : List ℕ → List Connection × Ending)
      → IsSound l ports url count chain h
      → ((next : List ℕ) → count < max_redirects → f next ≡ g next)
      → after h f ≡ after h g
  after-same url count chain (ends cs e) f g s same = refl
  after-same url count chain (follows c next) f g (_, _, _, less) same =
      ap (prepend c) (same next less)

  -- The rounds suffice: from any hop on, a loop with more rounds than are left does the same, so that
  -- the report after the loop is never made.
  pub probe_hops-enough :
      (n m : ℕ) (url : List ℕ) (count : ℕ) (chain : List (List ℕ))
      → n + count ≡ max_redirects + 1
      → count ≤ max_redirects
      → n ≤ m
      → probe_hops l ports w m url count chain ≡ probe_hops l ports w n url count chain
  unfolding probe_hops
  probe_hops-enough zero m url count chain all few more = absurd (omega arith)
  probe_hops-enough (suc n) zero url count chain all few more = absurd (omega arith)
  probe_hops-enough (suc n) (suc m) url count chain all few more =
      after-same url count chain (hop l ports w url count chain) _ _
        (hop-IsSound l reads ports w url count chain few)
        (λ next less.
          probe_hops-enough n m next (count + 1) (chain ++ next ∷ []) (omega arith) (omega arith)
            (omega arith))
