-- ===== src/Jobs/Wait.antt =====
-- src/job.c: the loop of `reap_children`, and the loop of `new_job` that waits for a slot. The loops
-- run on fuel; `none` is that it ran out, or a fatal error inside.
use make.Jobs.{Child, Jobs, Settings, Moment, is_empty}
use make.Jobs.Reap.{Exit, Reaped, goes_on, reaped, dies, is_unstarted, reap_one}
use make.Prelude.{
  ℕ, zero, suc, Bool, true, false, not, ◌&&◌, ◌||◌, Option, none, some, List, [], ◌∷◌, ◌>>=◌, ◌==◌,
  if◌then◌else◌,
}

-- The system: what holds when a command is started, the process that ends next, and whether one has
-- ended already.
pub record Host : Type 0 where
  pub moment : Jobs → Moment
  pub exit : Jobs → Exit
  pub has_dead : Jobs → Bool

unfoldable pub has_unstarted : List Child → Bool
has_unstarted [] = false
has_unstarted (c ∷ cs) = is_unstarted c || has_unstarted cs

-- The loop ends: there is no child, or it does not block and there is nothing to reap.
unfoldable pub nothing_to_reap : Host → Bool → Jobs → Bool
unfolding has_unstarted
nothing_to_reap host block j =
    is_empty j.children || (not block && not (has_unstarted j.children || host.has_dead j))

-- After a child is gone the loop does not block any more.
unfoldable pub after_reap : (Bool → Jobs → Option Reaped) → Bool → Reaped → Option Reaped
after_reap again block (goes_on j) = again block j
after_reap again block (reaped j) = again false j
after_reap again block (dies n) = some (dies n)

-- `reap_children` with `err` false; `goes_on` is that it returns.
unfoldable pub reap_children : Settings → Host → ℕ → Bool → Jobs → Option Reaped
unfolding nothing_to_reap after_reap
reap_children s host zero block j = none
reap_children s host (suc fuel) block j =
    let round =
      reap_one s (host.moment j) (host.exit j) j >>= after_reap (reap_children s host fuel) block in
    if nothing_to_reap host block j then some (goes_on j) else round

unfoldable pub after_reaping : (Jobs → Option Reaped) → Reaped → Option Reaped
after_reaping again (goes_on j) = again j
after_reaping again (reaped j) = again j
after_reaping again (dies n) = some (dies n)

-- `while (job_slots_used == job_slots) reap_children (1, 0);`
unfoldable pub wait_for_slot : Settings → Host → ℕ → Jobs → Option Reaped
unfolding reap_children after_reaping
wait_for_slot s host zero j = none
wait_for_slot s host (suc fuel) j =
    let waited = reap_children s host fuel true j >>= after_reaping (wait_for_slot s host fuel) in
    if j.job_slots_used == s.job_slots then waited else some (goes_on j)
