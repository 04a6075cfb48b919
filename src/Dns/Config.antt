-- ===== src/Dns/Config.antt =====
-- companion/src/dns/config.rs: the configuration of the development core, its validation, and its
-- loading. Files, paths and the parser of serde_json are parameters.
pub mod Valid
use not_another_ad_blocker.Prelude.{
  ℕ, ◌+◌, ◌*◌, ◌/◌, ◌%◌, Bool, true, false, ◌&&◌, ◌||◌, not, List, [], ◌∷◌, ◌++◌, Option, none,
  some, String, ltb, leb, ◌==◌, length, if◌then◌else◌, Result, ok, err, ◌>>=◌,
}
use not_another_ad_blocker.Text.{Str, codes, len, strip_prefix}
use not_another_ad_blocker.Dns.Blocklist.Policy.{RuleSource, DnsPolicy}
use not_another_ad_blocker.Dns.Blocklist.Compile.{compile}

-- `std::net::IpAddr`: four octets, or eight segments of 16 bits.
pub data IpAddr : Type 0 where
  v4 : ℕ → ℕ → ℕ → ℕ → IpAddr
  v6 : ℕ → ℕ → ℕ → ℕ → ℕ → ℕ → ℕ → ℕ → IpAddr

pub record SocketAddr : Type 0 where
  pub ip : IpAddr
  pub port : ℕ

unfoldable pub is_loopback : IpAddr → Bool
is_loopback (v4 a b c d) = a == 127
is_loopback (v6 a b c d e f g h) =
    a == 0 && b == 0 && c == 0 && d == 0 && e == 0 && f == 0 && g == 0 && h == 1

unfoldable pub is_unspecified : IpAddr → Bool
is_unspecified (v4 a b c d) = a == 0 && b == 0 && c == 0 && d == 0
is_unspecified (v6 a b c d e f g h) =
    a == 0 && b == 0 && c == 0 && d == 0 && e == 0 && f == 0 && g == 0 && h == 0

unfoldable pub is_multicast : IpAddr → Bool
is_multicast (v4 a b c d) = leb 224 a && leb a 239
is_multicast (v6 a b c d e f g h) = a / 256 == 255

unfoldable pub is_broadcast : IpAddr → Bool
is_broadcast (v4 a b c d) = a == 255 && b == 255 && c == 255 && d == 255
is_broadcast (v6 a b c d e f g h) = false

-- `to_canonical`: an IPv4 address that is mapped into IPv6 is taken out.
unfoldable pub to_canonical : IpAddr → IpAddr
to_canonical (v4 a b c d) = v4 a b c d
to_canonical (v6 a b c d e f g h) =
    if a == 0 && b == 0 && c == 0 && d == 0 && e == 0 && f == 65535
    then v4 (g / 256) (g % 256) (h / 256) (h % 256)
    else v6 a b c d e f g h

pub record FilterFile : Type 0 where
  pub name : Str
  pub path : Str

pub record DnsConfig : Type 0 where
  pub listen : SocketAddr
  pub upstreams : List SocketAddr
  pub timeout_ms : ℕ
  pub cache_entries : ℕ
  pub max_in_flight : ℕ
  pub activity_capacity : ℕ
  pub filter_lists : List FilterFile
  pub allowlist : List Str
  pub blocklist : List Str

abbrev pub default_listen : SocketAddr
default_listen = record { ip = v4 127 0 0 1; port = 5354 }

abbrev pub default_timeout : ℕ
default_timeout = 2000

abbrev pub default_cache : ℕ
default_cache = 1024

abbrev pub default_concurrency : ℕ
default_concurrency = 64

abbrev pub default_activity : ℕ
default_activity = 300

unfoldable pub check_upstream : ℕ → SocketAddr → Result Str (Unit {0})
check_upstream listen_port upstream =
    let ip = to_canonical upstream.ip in
    if upstream.port == 0 || is_unspecified ip || is_multicast ip || is_broadcast ip
    then err (codes "Upstreams must be unicast addresses with nonzero ports")
    else if is_loopback ip && upstream.port == listen_port
    then err (codes "An upstream cannot point back to the local DNS listener")
    else ok tt

unfoldable pub check_upstreams : ℕ → List SocketAddr → Result Str (Unit {0})
check_upstreams listen_port [] = ok tt
check_upstreams listen_port (upstream ∷ rest) = do
  _ ← check_upstream listen_port upstream
  check_upstreams listen_port rest

abbrev pub is_empty_list {ℓ} : {A : Type ℓ} → List A → Bool
is_empty_list [] = true
is_empty_list (x ∷ xs) = false

unfoldable pub check_limits : DnsConfig → Result Str (Unit {0})
check_limits config =
    if not (leb 100 config.timeout_ms && leb config.timeout_ms 10000)
      || not (leb 1 config.max_in_flight && leb config.max_in_flight 256)
    then err (codes "timeoutMs must be 100–10000 and maxInFlight must be 1–256")
    else if ltb 4096 config.cache_entries || ltb 1000 config.activity_capacity
    then err (codes "cacheEntries must be 0–4096 and activityCapacity must be 0–1000")
    else if ltb 2 (length config.filter_lists)
    then err (codes "At most two filter-list files may be loaded")
    else ok tt

unfoldable pub validate : DnsConfig → Result Str (Unit {0})
validate config =
    if not (is_loopback config.listen.ip) || ltb config.listen.port 1024
    then err (
        codes
          "The development listener must use a loopback address and an unprivileged port (1024–65535)")
    else if is_empty_list config.upstreams || ltb 4 (length config.upstreams)
    then err (codes "Configure 1–4 explicit upstream IP:port addresses")
    else do _ ← check_upstreams config.listen.port config.upstreams; check_limits config

-- An open file: whether it is a regular one, or the error of asking; and the text of at most so many
-- of its bytes, or the error of reading them.
pub record File : Type 0 where
  pub is_file : Result Str Bool
  pub take_text : ℕ → Result Str Str

unfoldable pub cannot_open : Str → Str → Str
cannot_open path error = codes "Cannot open " ++ (path ++ (codes ": " ++ error))

unfoldable pub cannot_read : Str → Str → Str
cannot_read path error = codes "Cannot read UTF-8 file " ++ (path ++ (codes ": " ++ error))

unfoldable pub without_mark : Str → Str
without_mark text = elim (strip_prefix (0xFEFF ∷ []) text) [ some rest ↦ rest | none ↦ text ]

abbrev pub of_json : Result Str DnsConfig → Result Str DnsConfig
of_json (ok config) = ok config
of_json (err error) = err (codes "Invalid DNS configuration: " ++ error)

module _ (open_file : Str → Result Str File) (show_number : ℕ → Str) where
  unfoldable pub check_text : Str → ℕ → Str → Result Str Str
  check_text path maximum text =
      if ltb maximum (len text)
      then err (path ++ (codes " exceeds " ++ (show_number maximum ++ codes " bytes")))
      else ok (without_mark text)

  unfoldable pub read_file : Str → ℕ → File → Result Str Str
  read_file path maximum file = elim (file.is_file) [
    | err error ↦ err error
    | ok regular ↦
        if regular
        then elim (file.take_text (maximum + 1)) [
          | err error ↦ err (cannot_read path error)
          | ok text ↦ check_text path maximum text
        ]
        else err (path ++ codes " must be a regular file")
  ]

  unfoldable pub read_bounded : Str → ℕ → Result Str Str
  read_bounded path maximum = elim (open_file path) [
    | err error ↦ err (cannot_open path error)
    | ok file ↦ read_file path maximum file
  ]

  -- The loop over the lists; `beside` is a path next to the configuration.
  unfoldable pub read_lists : (Str → Str) → List FilterFile → Result Str (List RuleSource)
  read_lists beside [] = ok []
  read_lists beside (file ∷ files) = do
    text ← read_bounded (beside file.path) (8 * 1024 * 1024)
    rest ← read_lists beside files
    ok (record { name = file.name; text = text } ∷ rest)

  module _ (parse : Str → Result Str DnsConfig) (join_parent : Str → Str → Str)
      (to_ascii : Str → Option Str) where
    unfoldable pub load : Str → Result Str (DnsConfig × DnsPolicy)
    load path = do
      text ← read_bounded path (1024 * 1024)
      config ← of_json (parse text)
      _ ← validate config
      sources ← read_lists (join_parent path) config.filter_lists
      policy ← compile to_ascii sources config.allowlist config.blocklist
      ok (config, policy)
