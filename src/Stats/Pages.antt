-- ===== src/Stats/Pages.antt =====
-- Which requests for a statistics page are answered.
use pushd.Prelude.{
  ℕ, ◌≡◌, ◌≢◌, ◌↔◌, inl, inr, refl, subst, true, false, Option, none, arith, Bool-cases, Outcome,
  done, panic,
}
use pushd.Text.{Bytes, codes, same, same_iff}
use pushd.Config.{ConfigPushd}
use pushd.Stats.{Runtime, Answer, http_404, stat_page, finished, handle_http_query}

module _ (conf : ConfigPushd) (rt : Runtime) (pubsub_channels : ℕ) where
  differs : (cmd name : Bytes) → cmd ≢ name → same cmd name ≡ false
  differs cmd name n = elim (Bool-cases (same cmd name)) [
    | inl e ↦ absurd (n ((same_iff cmd name).0 e))
    | inr e ↦ e
  ]

  module _ (s2s_channels : Option ℕ) where
    answer : Bytes → Outcome Answer
    answer = handle_http_query conf rt pubsub_channels s2s_channels

    panics :
        (cmd : Bytes)
        → answer cmd ≡ panic
        → (s2s_channels ≡ none) × (same cmd (codes "stat") ≡ true)
    unfolding answer handle_http_query finished stat_page
    panics cmd h = ground (arith, h)

    answers_404 :
        (cmd : Bytes)
        → same cmd (codes "ping") ≡ false
        → same cmd (codes "trace") ≡ false
        → same cmd (codes "sys") ≡ false
        → same cmd (codes "stat") ≡ false
        → answer cmd ≡ done http_404
    unfolding answer handle_http_query finished
    answers_404 cmd p t s u = ground (arith, p, t, s, u)

    stat_found : ¬ (answer (codes "stat") ≡ done http_404)
    unfolding answer handle_http_query finished stat_page same
    stat_found h = ground (arith, h)

    -- A server with a proxy answers every request for statistics: the names `ping`, `trace`, `sys` and
    -- `stat` with a page, and every other with the error 404. A server without a proxy does the same but
    -- for `stat`, where it panics.
    pub handle_http_query_lem :
        (cmd : Bytes)
        → ((handle_http_query conf rt pubsub_channels s2s_channels cmd ≡ panic)
            ↔ ((s2s_channels ≡ none) × (cmd ≡ codes "stat")))
          × ((handle_http_query conf rt pubsub_channels s2s_channels cmd ≡ done http_404) ↔ (
              (cmd ≢ codes "ping")
              × (cmd ≢ codes "trace")
              × (cmd ≢ codes "sys")
              × (cmd ≢ codes "stat")))
    unfolding answer handle_http_query finished stat_page same
    handle_http_query_lem cmd = (
      (
        λ h. let (n, e) = panics cmd h in (n, (same_iff cmd (codes "stat")).0 e),
        λ (n, e). rw (n, e) refl,
      ),
      (
        λ h. (
          λ e. ground (arith, subst (λ c. answer c ≡ done http_404) e h),
          λ e. ground (arith, subst (λ c. answer c ≡ done http_404) e h),
          λ e. ground (arith, subst (λ c. answer c ≡ done http_404) e h),
          λ e. stat_found (subst (λ c. answer c ≡ done http_404) e h),
        ),
        λ (p, t, s, u).
            answers_404 cmd (differs cmd _ p) (differs cmd _ t) (differs cmd _ s) (differs cmd _ u),
      ),
    )
