-- ===== src/Stats.antt =====
-- The statistics pages (engine/server_tcp_stats.go): which page answers a request. What the Go
-- runtime and golib's version say is given; the counters of golib's metrics are left out.
pub mod Pages
use pushd.Prelude.{
  ℕ, zero, suc, ◌+◌, ◌-◌, ◌*◌, ◌/◌, ◌%◌, ◌^◌, ◌≤◌, ◌<◌, ◌≡◌, ◌≢◌, ◌↔◌, ◌⊎◌, inl, inr, refl, sym, ap,
  ◌∙◌, subst, Bool, true, false, ◌&&◌, ◌||◌, not, Option, none, some, List, [], ◌∷◌, ◌++◌, map,
  append-nil, append_assoc, arith, ltb, leb, ◌==◌, if◌then◌else◌, ==_iff, ==_refl, Bool-cases,
  Option-cases, length, get_elem?, get_elem?_of_lt, take, drop, replicate, length-append,
  take-append, drop-append, All, All-append, ℤ, pos, negsuc, Outcome, done, panic,
}
use pushd.Text.{Bytes, codes, same}
use pushd.Config.{ConfigPushd}

-- what the runtime says of the process at one time
pub record Runtime : Type 0 where
  pub stack : Bytes
  pub goroutines : ℕ
  pub mem_stats : Bytes
  pub rusage : Bytes
  pub version : Bytes
  pub build_id : Bytes

-- a value of the map `output`
pub data Value : Type 0 where
  text : Bytes → Value
  number : ℕ → Value
  counts : List (Bytes × ℕ) → Value
  configuration : ConfigPushd → Value

-- what a request is answered: a page, or `ErrHttp404`
pub data Answer : Type 0 where
  page : List (Bytes × Value) → Answer
  http_404 : Answer

-- `LaunchHttpServer`: the addresses that are served, if any
unfoldable pub launch_http_server : ConfigPushd → Option (Bytes × Bytes)
launch_http_server conf =
    if same conf.stats_listen_addr []
    then none
    else some (conf.stats_listen_addr, conf.prof_listen_addr)

module _ (conf : ConfigPushd) (rt : Runtime) (pubsub_channels : ℕ) where
  -- the pages; the router of the proxy is there only where the proxy is
  unfoldable pub stat_page : Option ℕ → Outcome (List (Bytes × Value))
  stat_page none = panic
  stat_page (some s2s_channels) = done (
      (codes "ver", text rt.version)
      ∷ (codes "build", text rt.build_id)
      ∷ (
        codes "stats",
        counts (
            (codes "pubsub_channel_count", pubsub_channels)
            ∷ (codes "s2s_channel_count", s2s_channels)
            ∷ []),
      )
      ∷ (codes "conf", configuration conf)
      ∷ [])

  -- the link that is added to every page
  unfoldable pub with_pprof : List (Bytes × Value) → List (Bytes × Value)
  with_pprof output =
      if same conf.prof_listen_addr []
      then output
      else output
        ++ (codes "pprof", text (codes "http://" ++ conf.prof_listen_addr ++ codes "/debug/pprof/"))
          ∷ []

  unfoldable pub finished : Outcome (List (Bytes × Value)) → Outcome Answer
  unfolding with_pprof
  finished panic = panic
  finished (done output) = done (page (with_pprof output))

  -- `handleHttpQuery`; the buffer of the stack has 2^20 bytes
  unfoldable pub handle_http_query : Option ℕ → Bytes → Outcome Answer
  unfolding stat_page finished
  handle_http_query s2s_channels cmd =
      if same cmd (codes "ping")
      then finished (done ((codes "status", text (codes "ok")) ∷ []))
      else if same cmd (codes "trace")
      then finished (done ((codes "callstack", text (take (2 ^ 20) rt.stack)) ∷ []))
      else if same cmd (codes "sys")
      then finished (
          done (
            (codes "goroutines", number rt.goroutines)
            ∷ (codes "memory", text rt.mem_stats)
            ∷ (codes "rusage", text rt.rusage)
            ∷ []))
      else if same cmd (codes "stat")
      then finished (stat_page s2s_channels)
      else done http_404
