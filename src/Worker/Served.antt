-- ===== src/Worker/Served.antt =====
-- What the result cache does is the beginning of an attempt, or the whole of one.
use fyredocs_backend.Prelude.{
  ℕ, String, Bool, true, false, refl, sym, subst, inl, inr, Option, none, some, ◌=ₛ◌, List, [], ◌∷◌,
  ◌++◌, Bool-cases,
}
use mathlib.Core.List.{append_assoc}
use fyredocs_backend.Text.Paths.{base}
use fyredocs_backend.Store.Objects.{ObjectInfo}
use fyredocs_backend.Worker.Cache.{
  merge, record_output, completed, cached_row, cached_copy, cached_hit, output_key,
}
use fyredocs_backend.Worker.Effects.{JobPayload, Effect, clear_failure, ack}
use fyredocs_backend.Worker.Outside.{Try, done, fails, WorkerConfig, Message, Outside, CachedResult}
use fyredocs_backend.Worker.Attempts.{is_work, announce, Attempt, work, serve, merge-Attempt}

module _ (cfg : WorkerConfig) (msg : Message) (p : JobPayload) (job : String) where
  -- What the cache leaves to be done.
  unfoldable pub Served : Bool × List Effect → Type 0
  Served (true, fx) = Attempt cfg msg p job (fx ++ ack ∷ [])
  Served (false, fx) =
      (rest : List Effect) → Attempt cfg msg p job rest → Attempt cfg msg p job (fx ++ rest)

  module _ (out : Outside) where
    cached_row-Served :
        (cv : CachedResult) (dst : String) (size : ℕ) (t : Try (Unit {0}))
        → Served (cached_row cfg p job cv dst size t)
    unfolding Served cached_row record_output completed announce is_work
    cached_row-Served cv dst size (fails e) = λ rest a. work refl (work refl a)
    cached_row-Served cv dst size (done _) =
        let done_fx = completed cfg p job size in
        let tail : Attempt cfg msg p job ((done_fx ++ clear_failure job ∷ []) ++ ack ∷ []) =
          subst (Attempt cfg msg p job)
            (sym (append_assoc done_fx (clear_failure job ∷ []) (ack ∷ []))) (serve size) in
        work refl (
          work refl (
            work refl (
              subst (Attempt cfg msg p job)
                (sym (
                  append_assoc (merge job cv.metadata) (done_fx ++ clear_failure job ∷ [])
                    (ack ∷ [])))
                (merge-Attempt cfg msg p job cv.metadata _ tail))))

    nothing-Served : Served (false, [])
    unfolding Served
    nothing-Served rest a = a

    cached_copy-Served :
        (cv : CachedResult) (info : ObjectInfo) → Served (cached_copy cfg out p job cv info)
    unfolding cached_copy
    cached_copy-Served cv info =
        elim (Bool-cases
          (out.copy_output cv.output_key (output_key p.job_id (base cv.output_key)))) [
            | inl e ↦ rw (e, cached_copy) (cached_row-Served cv _ info.size _)
            | inr e ↦ rw (e, cached_copy) nothing-Served
          ]

    stat-Served :
        (cv : CachedResult) (o : Option ObjectInfo)
        → Served (elim o [ none ↦ (false, []) | some info ↦ cached_copy cfg out p job cv info ])
    stat-Served cv none = nothing-Served
    stat-Served cv (some info) = cached_copy-Served cv info

    pub cached_hit-Served : (o : Option CachedResult) → Served (cached_hit cfg out p job o)
    unfolding cached_hit
    cached_hit-Served none = nothing-Served
    cached_hit-Served (some cv) = elim (Bool-cases (cv.output_key =ₛ "")) [
      | inl e ↦ rw (e, cached_hit) nothing-Served
      | inr e ↦ rw (e, cached_hit) (stat-Served cv (out.stat_output cv.output_key))
    ]
