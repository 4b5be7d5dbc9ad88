-- ===== src/Network/Ranges.antt =====
-- The blocked IPv4 ranges read by octets, and IPv4-mapped addresses.
use ai_cyber_security_suite.Prelude.{
  ℕ, ◌+◌, ◌*◌, ◌/◌, ◌%◌, ◌^◌, ◌<◌, ◌≡◌, refl, Bool, true, false, ◌||◌, ◌&&◌, ◌==◌, leb,
  if◌then◌else◌, arith,
}
use ai_cyber_security_suite.Network.{
  ipv4, ipv6, quad, contains, is_listed, Library, is_blocked_ip, net4,
}

-- The ranges as a reader of dotted quads knows them.
abbrev pub is_special : ℕ → ℕ → ℕ → Bool
is_special a b c =
    a == 0
    || (a == 10
        || (a == 100 && (leb 64 b && leb b 127)
            || (a == 127
                || (a == 169 && b == 254
                    || (a == 172 && (leb 16 b && leb b 31)
                        || (a == 192 && (b == 0 && c == 0)
                            || (a == 192 && (b == 0 && c == 2)
                                || (a == 192 && b == 168
                                    || (a == 198 && (leb 18 b && leb b 19)
                                        || (a == 198 && (b == 51 && c == 100)
                                            || (a == 203 && (b == 0 && c == 113)
                                                || leb 224 a)))))))))))

or_step : (p q r s : Bool) → p ≡ q → r ≡ s → (if p then true else r) ≡ (q || s)
or_step true q r s h k = rw (← h) refl
or_step false q r s h k = rw (← h) k

module _ (a b c d : ℕ) (ha : a < 256) (hb : b < 256) (hc : c < 256) (hd : d < 256) where
  in_first : (k : ℕ) → k < 256 → contains (ipv4 (quad a b c d)) (net4 (quad k 0 0 0) 8) ≡ (a == k)
  in_first k h = ground arith

  in_second :
      (j k : ℕ)
      → j < 256
      → k < 256
      → contains (ipv4 (quad a b c d)) (net4 (quad j k 0 0) 16) ≡ (a == j && b == k)
  in_second j k hj hk = ground arith

  in_third :
      (i j k : ℕ)
      → i < 256
      → j < 256
      → k < 256
      → contains (ipv4 (quad a b c d)) (net4 (quad i j k 0) 24) ≡ (a == i && (b == j && c == k))
  in_third i j k hi hj hk = ground arith

  in_shared :
      contains (ipv4 (quad a b c d)) (net4 (quad 100 64 0 0) 10)
      ≡ (a == 100 && (leb 64 b && leb b 127))
  in_shared = ground arith

  in_private :
      contains (ipv4 (quad a b c d)) (net4 (quad 172 16 0 0) 12)
      ≡ (a == 172 && (leb 16 b && leb b 31))
  in_private = ground arith

  in_benchmark :
      contains (ipv4 (quad a b c d)) (net4 (quad 198 18 0 0) 15)
      ≡ (a == 198 && (leb 18 b && leb b 19))
  in_benchmark = ground arith

  in_upper :
      (k : ℕ)
      → k < 16
      → contains (ipv4 (quad a b c d)) (net4 (quad (k * 16) 0 0 0) 4) ≡ (a / 16 == k)
  in_upper k h = ground arith

  is_last :
      contains (ipv4 (quad a b c d)) (net4 (quad 255 255 255 255) 32)
      ≡ (a == 255 && (b == 255 && (c == 255 && d == 255)))
  is_last = ground arith

  -- Without the CIDR notation: the blocked IPv4 networks are exactly the special ranges of octets.
  pub is_listed-is_special : is_listed (ipv4 (quad a b c d)) ≡ is_special a b c
  is_listed-is_special = or_step _ _ _ _ (in_first 0 (omega arith)) (
      or_step _ _ _ _ (in_first 10 (omega arith)) (
        or_step _ _ _ _ in_shared (
          or_step _ _ _ _ (in_first 127 (omega arith)) (
            or_step _ _ _ _ (in_second 169 254 (omega arith) (omega arith)) (
              or_step _ _ _ _ in_private (
                or_step _ _ _ _ (in_third 192 0 0 (omega arith) (omega arith) (omega arith)) (
                  or_step _ _ _ _ (in_third 192 0 2 (omega arith) (omega arith) (omega arith)) (
                    or_step _ _ _ _ (in_second 192 168 (omega arith) (omega arith)) (
                      or_step _ _ _ _ in_benchmark (
                        or_step _ _ _ _
                          (in_third 198 51 100 (omega arith) (omega arith) (omega arith))
                          (or_step _ _ _ _
                            (in_third 203 0 113 (omega arith) (omega arith) (omega arith))
                            (rw (in_upper 14 (omega arith), in_upper 15 (omega arith), is_last)
                              (ground arith)))))))))))))

-- An IPv4 address inside an IPv4-mapped IPv6 address is blocked exactly when it is blocked itself.
pub is_blocked_ip-mapped :
    (l : Library) (a : ℕ)
    → a < 2 ^ 32
    → is_blocked_ip l (ipv6 (0xffff * 2 ^ 32 + a)) ≡ is_blocked_ip l (ipv4 a)
unfolding is_blocked_ip
is_blocked_ip-mapped l a h =
    let high : (0xffff * 2 ^ 32 + a) / 2 ^ 32 ≡ 0xffff = omega arith in
    let low : (0xffff * 2 ^ 32 + a) % 2 ^ 32 ≡ a = omega arith in rw (high, low) refl
