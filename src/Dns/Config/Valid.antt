-- ===== src/Dns/Config/Valid.antt =====
-- companion/src/dns/config.rs: what a validated and a loaded configuration is.
use not_another_ad_blocker.Prelude.{
  ℕ, ◌+◌, ◌*◌, ◌≤◌, ◌≡◌, ◌≢◌, ◌↔◌, refl, ap, subst, ◌∙◌, true, false, not, List, [], ◌∷◌, Option,
  ◌==◌, ◌⊎◌, All, All-map, arith, leb, length, Result, ok, ok_inj, inl, inr, Bool-cases,
  Result-cases,
}
use not_another_ad_blocker.Text.{Str, len, strip_prefix}
use not_another_ad_blocker.Dns.Blocklist.Policy.{RuleSource, DnsPolicy}
use not_another_ad_blocker.Dns.Blocklist.Compile.{compile}
use not_another_ad_blocker.Dns.Config.{
  IpAddr, v4, v6, SocketAddr, is_loopback, is_unspecified, is_multicast, is_broadcast, to_canonical,
  FilterFile, DnsConfig, check_upstream, check_upstreams, is_empty_list, check_limits, validate,
  File, check_text, without_mark, read_file, read_bounded, read_lists, of_json, load,
}

-- A unicast address with a port, and not the listener's port on this machine.
pub record IsUpstreamOf (listen_port : ℕ) (upstream : SocketAddr) : Type 0 where
  pub numbered : 1 ≤ upstream.port
  pub specified : is_unspecified (to_canonical upstream.ip) ≡ false
  pub unicast : is_multicast (to_canonical upstream.ip) ≡ false
  pub narrow : is_broadcast (to_canonical upstream.ip) ≡ false
  pub apart : is_loopback (to_canonical upstream.ip) ≡ true → upstream.port ≢ listen_port

-- A configuration with its addresses and numbers in their ranges.
pub record IsValid (config : DnsConfig) : Type 0 where
  pub on_this_machine : is_loopback config.listen.ip ≡ true
  pub unprivileged : 1024 ≤ config.listen.port
  pub some_upstream : 1 ≤ length config.upstreams
  pub four_upstreams : length config.upstreams ≤ 4
  pub upstreams : All (IsUpstreamOf config.listen.port) config.upstreams
  pub timely : (100 ≤ config.timeout_ms) × (config.timeout_ms ≤ 10000)
  pub in_flight : (1 ≤ config.max_in_flight) × (config.max_in_flight ≤ 256)
  pub small_cache : config.cache_entries ≤ 4096
  pub small_log : config.activity_capacity ≤ 1000
  pub two_lists : length config.filter_lists ≤ 2

canonical_loopback : (ip : IpAddr) → is_loopback ip ≡ true → is_loopback (to_canonical ip) ≡ true
unfolding is_loopback to_canonical
canonical_loopback (v4 a b c d) e = e
canonical_loopback (v6 a b c d e f g h) l = ground arith

check_upstream-IsUpstreamOf :
    (port : ℕ) (u : SocketAddr) → check_upstream port u ≡ ok tt ↔ IsUpstreamOf port u
unfolding check_upstream
check_upstream-IsUpstreamOf port u = (
  λ e. record {
    numbered = ground arith;
    specified = ground arith;
    unicast = ground arith;
    narrow = ground arith;
    apart = λ l same. ground arith;
  },
  λ i. ground (arith, i.numbered, i.specified, i.unicast, i.narrow, i.apart),
)

empty_length : {A : Type 0} (xs : List A) → is_empty_list xs ≡ not (leb 1 (length xs))
empty_length [] = refl
empty_length (x ∷ xs) = ground arith

check_upstreams-All :
    (port : ℕ) (us : List SocketAddr) → check_upstreams port us ≡ ok tt ↔ All (IsUpstreamOf port) us
unfolding check_upstreams
check_upstreams-All port [] = (λ e. tt, λ a. refl)
check_upstreams-All port (u ∷ us) =
    let (forth, back) = check_upstream-IsUpstreamOf port u in
    let (each, all_of) = check_upstreams-All port us in
    elim (Result-cases (check_upstream port u)) [
      | inr (m, e) ↦ (λ h. absurd (ground arith), λ (i, a). absurd (ground (arith, back i)))
      | inl (t, e) ↦ (
        λ h. (forth e, each (rw (check_upstreams, e) at h)),
        λ (i, a). rw (check_upstreams, e) (all_of a),
      )
    ]

-- The validation accepts exactly the configurations that are valid: a listener on this machine with an
-- unprivileged port, one to four upstreams with unicast addresses other than the listener, and all
-- numbers in their ranges.
pub validate_iff : (config : DnsConfig) → validate config ≡ ok tt ↔ IsValid config
unfolding validate check_limits
validate_iff config =
    let (each, all_of) = check_upstreams-All config.listen.port config.upstreams in
    (
      λ e. elim (Result-cases (check_upstreams config.listen.port config.upstreams)) [
        | inr (m, bad) ↦ absurd (ground arith)
        | inl (t, good) ↦ record {
          on_this_machine = ground arith;
          unprivileged = ground arith;
          some_upstream = ground (arith, empty_length config.upstreams);
          four_upstreams = ground arith;
          upstreams = each good;
          timely = ground arith;
          in_flight = ground arith;
          small_cache = ground arith;
          small_log = ground arith;
          two_lists = ground arith;
        }
      ],
      λ i. ground (
        arith,
        empty_length config.upstreams,
        all_of i.upstreams,
        i.on_this_machine,
        i.unprivileged,
        i.some_upstream,
        i.four_upstreams,
        i.timely,
        i.in_flight,
        i.small_cache,
        i.small_log,
        i.two_lists,
      ),
    )

-- No upstream of a valid configuration is the listener itself, however the address is written.
pub validate-apart :
    (config : DnsConfig)
    → validate config ≡ ok tt
    → All
        (λ u. to_canonical u.ip ≡ to_canonical config.listen.ip → u.port ≡ config.listen.port → ⊥)
        config.upstreams
validate-apart config e =
    let i = (validate_iff config).0 e in
    All-map
      (λ u of same_ip same_port.
        of.apart (ap is_loopback same_ip ∙ canonical_loopback config.listen.ip i.on_this_machine)
          same_port)
      config.upstreams i.upstreams

-- A text less the byte order mark in front of it, if it has one.
abbrev pub IsUnmarked : (whole text : Str) → Type 0
IsUnmarked whole text = (whole ≡ 0xFEFF ∷ text) ⊎ (whole ≡ text) × ((t : Str) → whole ≢ 0xFEFF ∷ t)

without_mark-IsUnmarked : (whole : Str) → IsUnmarked whole (without_mark whole)
unfolding without_mark strip_prefix
without_mark-IsUnmarked [] = inr (refl, λ t. ground arith)
without_mark-IsUnmarked (c ∷ cs) = elim (Bool-cases (c == 0xFEFF)) [
  | inl e ↦ inl (ground arith)
  | inr e ↦ inr (ground arith, λ t same. ground arith)
]

module _ (open_file : Str → Result Str File) where
  -- A text is that of the regular file at a path, whole and within a bound, less its mark.
  abbrev pub IsRead : (path : Str) (maximum : ℕ) (text : Str) → Type 0
  IsRead path maximum text =
      (file : File) × (whole : Str) × (open_file path ≡ ok file)
      × (file.is_file ≡ ok true)
      × (file.take_text (maximum + 1) ≡ ok whole)
      × (len whole ≤ maximum)
      × IsUnmarked whole text

  -- The sources have the names of the list files, in their order, and the texts at their paths.
  abbrev pub AreRead : (Str → Str) → List FilterFile → List RuleSource → Type 0
  AreRead beside [] [] = Unit
  AreRead beside [] (s ∷ sources) = ⊥
  AreRead beside (f ∷ files) [] = ⊥
  AreRead beside (f ∷ files) (s ∷ sources) =
      (s.name ≡ f.name) × IsRead (beside f.path) 8388608 s.text × AreRead beside files sources

module _ (open_file : Str → Result Str File) (show_number : ℕ → Str) where
  read_bounded-IsRead :
      (path : Str) (maximum : ℕ) (text : Str)
      → read_bounded open_file show_number path maximum ≡ ok text
      → IsRead open_file path maximum text
  unfolding read_bounded read_file check_text
  read_bounded-IsRead path maximum text h = elim (Result-cases (open_file path)) [
    | inr (m, bad) ↦ absurd (ground arith)
    | inl (file, opened) ↦ elim (Result-cases (file.is_file)) [
      | inr (m, bad) ↦ absurd (ground arith)
      | inl (regular, told) ↦ elim (Bool-cases regular) [
        | inr bad ↦ absurd (ground arith)
        | inl e ↦ elim (Result-cases (file.take_text (maximum + 1))) [
          | inr (m, bad) ↦ absurd (ground arith)
          | inl (whole, taken) ↦ (
            file,
            whole,
            opened,
            (ground arith),
            taken,
            ground arith,
            subst (IsUnmarked whole) (ground arith) (without_mark-IsUnmarked whole),
          )
        ]
      ]
    ]
  ]

  read_lists-AreRead :
      (beside : Str → Str) (files : List FilterFile) (sources : List RuleSource)
      → read_lists open_file show_number beside files ≡ ok sources
      → AreRead open_file beside files sources
  unfolding read_lists
  read_lists-AreRead beside [] sources h = subst (AreRead open_file beside []) (ok_inj h) tt
  read_lists-AreRead beside (f ∷ files) sources h =
      elim (Result-cases (read_bounded open_file show_number (beside f.path) 8388608)) [
        | inr (m, bad) ↦ absurd (ground arith)
        | inl (text, e) ↦ elim (Result-cases (read_lists open_file show_number beside files)) [
          | inr (m, bad) ↦ absurd (ground arith)
          | inl (rest, e') ↦
              subst (AreRead open_file beside (f ∷ files)) (ok_inj (rw (read_lists, e, e') at h)) (
                refl,
                read_bounded-IsRead (beside f.path) 8388608 text e,
                read_lists-AreRead beside files rest e',
              )
        ]
      ]

  -- A loaded configuration is the one that is parsed from the text of the regular file at its path, of
  -- at most 1 MiB, and is valid. Its policy is the one that is compiled from its hostnames and from one
  -- source for each of its list files, in their order: with the file's name and the whole text of the
  -- regular file at its path beside the configuration, of at most 8 MiB, less a byte order mark.
  pub load-IsValid :
      (parse : Str → Result Str DnsConfig) (join_parent : Str → Str → Str)
      (to_ascii : Str → Option Str) (path : Str) (config : DnsConfig) (policy : DnsPolicy)
      → load open_file show_number parse join_parent to_ascii path ≡ ok (config, policy)
      → ((text : Str) × IsRead open_file path 1048576 text × (parse text ≡ ok config))
        × IsValid config
        × ((sources : List RuleSource) × AreRead open_file
              (join_parent path)
              config.filter_lists
              sources
            × (compile to_ascii sources config.allowlist config.blocklist ≡ ok policy))
  unfolding load
  load-IsValid parse join_parent to_ascii path config policy h =
      elim (Result-cases (read_bounded open_file show_number path (1024 * 1024))) [
        | inr (m, bad) ↦ absurd (ground arith)
        | inl (text, e) ↦ elim (Result-cases (of_json (parse text))) [
          | inr (m, bad) ↦ absurd (ground arith)
          | inl (c, e') ↦ elim (Result-cases (validate c)) [
            | inr (m, bad) ↦ absurd (ground arith)
            | inl (t, valid) ↦
                elim (Result-cases
                  (read_lists open_file show_number (join_parent path) c.filter_lists)) [
                    | inr (m, bad) ↦ absurd (ground arith)
                    | inl (sources, read) ↦
                        elim (Result-cases (compile to_ascii sources c.allowlist c.blocklist)) [
                          | inr (m, bad) ↦ absurd (ground arith)
                          | inl (p, compiled) ↦
                              let same : (c, p) ≡ (config, policy) =
                                ok_inj (rw (load, e, e', valid, read, compiled) at h) in
                              subst
                                (λ r.
                                  ((text : Str) × IsRead open_file path 1048576 text
                                    × (parse text ≡ ok r.0))
                                  × IsValid r.0
                                  × ((sources : List RuleSource) × AreRead open_file
                                        (join_parent path) r.0.filter_lists sources
                                      × (compile to_ascii sources r.0.allowlist r.0.blocklist
                                          ≡ ok r.1)))
                                same
                                (
                                  (text, read_bounded-IsRead path 1048576 text e, ground arith),
                                  (validate_iff c).0 valid,
                                  (
                                    sources,
                                    read_lists-AreRead (join_parent path) c.filter_lists sources
                                        read,
                                    compiled,
                                  ),
                                )
                        ]
                  ]
          ]
        ]
      ]
