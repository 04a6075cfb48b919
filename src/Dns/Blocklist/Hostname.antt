-- ===== src/Dns/Blocklist/Hostname.antt =====
-- companion/src/dns/blocklist.rs, `normalize_hostname`.
use not_another_ad_blocker.Prelude.{
  ℕ, ◌+◌, ◌*◌, ◌-◌, ◌≡◌, Bool, true, false, ◌&&◌, ◌||◌, not, List, [], ◌∷◌, Option, none, some, ltb,
  leb, ◌==◌, all, any, length, if◌then◌else◌, Result, ok, err, ok_or, ◌>>=◌, arith, Option-cases,
  inl, inr,
}
use not_another_ad_blocker.Text.{
  Str, codes, bytes, len, is_empty, split, strip_suffix, to_ascii_lowercase,
}
use not_another_ad_blocker.Text.Chars.{is_digit, is_whitespace}
use not_another_ad_blocker.Rules.Syntax.{valid_hostname}

-- One root dot, in ASCII or one of the three other forms that IDNA reads as a dot.
unfoldable pub strip_root_dot : Str → Str
strip_root_dot hostname = elim (strip_suffix (codes ".") hostname) [
  | some rest ↦ rest
  | none ↦ elim (strip_suffix (0x3002 ∷ []) hostname) [
    | some rest ↦ rest
    | none ↦ elim (strip_suffix (0xFF0E ∷ []) hostname) [
      | some rest ↦ rest
      | none ↦ elim (strip_suffix (0xFF61 ∷ []) hostname) [ some rest ↦ rest | none ↦ hostname ]
    ]
  ]
]

unfoldable pub decimal : ℕ → List ℕ → ℕ
decimal n [] = n
decimal n (d ∷ ds) = decimal (n * 10 + (d - 48)) ds

-- A decimal number of at most three digits up to 255, without a leading zero.
unfoldable pub is_octet : Str → Bool
is_octet [] = false
is_octet (d ∷ ds) =
    all is_digit (d ∷ ds)
    && leb (length ds) 2
    && (not (d == b'0') || is_empty ds)
    && leb (decimal 0 (d ∷ ds)) 255

-- `parse::<IpAddr>().is_ok()` where it is called: the IPv6 forms hold a colon, which no label of
-- the hostname does, so that the dotted IPv4 form is left.
unfoldable pub is_ip_addr : Str → Bool
is_ip_addr host = length (split b'.' host) == 4 && all is_octet (split b'.' host)

abbrev pub strip_dot : Str → Str
strip_dot ascii = elim (strip_suffix (codes ".") ascii) [ some rest ↦ rest | none ↦ ascii ]

-- The tests on the name in ASCII.
unfoldable pub check_host : Str → Result Str Str
check_host host =
    if not (valid_hostname host)
    then err (codes "A hostname must contain valid labels of at most 63 bytes")
    else if is_ip_addr host || all (λ label. all is_digit (bytes label)) (split b'.' host)
    then err (codes "IP addresses are not hostname rules")
    else ok host

module _ (to_ascii : Str → Option Str) where
  unfoldable pub normalize_hostname : Str → Result Str Str
  normalize_hostname hostname =
      if is_empty hostname || ltb 1024 (len hostname) || any is_whitespace hostname
      then err (codes "A hostname must be nonempty, bounded, and contain no whitespace")
      else do
        ascii ←
            ok_or (to_ascii (strip_root_dot hostname))
              (codes "A hostname must be a valid IDNA domain name")
        check_host (to_ascii_lowercase (strip_dot ascii))

  -- A normalized hostname passes the compiler's test on hostnames.
  pub normalize_hostname-valid :
      (hostname : Str) {host : Str}
      → normalize_hostname hostname ≡ ok host
      → valid_hostname host ≡ true
  unfolding normalize_hostname check_host
  normalize_hostname-valid hostname h = elim (Option-cases (to_ascii (strip_root_dot hostname))) [
    | inl e ↦ absurd (ground arith)
    | inr (ascii, e) ↦ ground arith
  ]
