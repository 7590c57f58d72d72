-- ===== src/App/Monitor/Watch/Debounce.antt =====
-- The debounce of the watch loop: bursts of changes, and the reads that they ask for.
use compose_monitor.Base.{
  ℕ, zero, suc, ◌+◌, ◌≤◌, ◌≡◌, refl, sym, ◌∙◌, ap, Bool, true, false, List, [], ◌∷◌, ◌++◌, arith,
  if◌then◌else◌,
}
use compose_monitor.App.Monitor.{MonitorService, MonitorState, refresh}
use compose_monitor.App.Monitor.Watch.{
  WatchState, Turn, change, closed, fired, ticked, begin, turn, turns, IsReady, Watches, begun,
  turned,
}

abbrev count : Turn → Turn → ℕ
count change change = 1
count fired fired = 1
count _ _ = 0

-- How often a case was taken.
abbrev pub count_turns : Turn → List Turn → ℕ
count_turns t [] = 0
count_turns t (u ∷ us) = count t u + count_turns t us

abbrev pending : Bool → ℕ
pending true = 1
pending false = 0

abbrev pub NoFired : List Turn → Type 0
NoFired [] = Unit
NoFired (fired ∷ ts) = ⊥
NoFired (t ∷ ts) = NoFired ts

abbrev pub changes : ℕ → List Turn
changes zero = []
changes (suc n) = change ∷ changes n

module _ {W : Type 0} (m : MonitorService W) where
  -- `armed` says whether the timer runs, throughout.
  pub Watches-armed :
      {s : MonitorState W} {ts : List Turn} {w : WatchState W}
      → Watches m s ts w
      → w.armed ≡ w.timer
  unfolding begin turn
  Watches-armed begun = refl
  Watches-armed (turned change r h) = ground (arith, Watches-armed r)
  Watches-armed (turned closed r h) = Watches-armed r
  Watches-armed (turned fired r h) = refl
  Watches-armed (turned ticked r h) = Watches-armed r

  fired-le :
      {s : MonitorState W} {ts : List Turn} {w : WatchState W}
      → Watches m s ts w
      → count_turns fired ts + pending w.timer ≤ count_turns change ts
  unfolding begin turn
  fired-le begun = omega arith
  fired-le (turned change r h) = ground (arith, fired-le r, Watches-armed r)
  fired-le (turned closed r h) = omega (arith, fired-le r)
  fired-le (turned fired r h) = ground (arith, fired-le r)
  fired-le (turned ticked r h) = omega (arith, fired-le r)

  -- The loop reads the project on account of changes at most as often as changes arrived.
  pub fired-le-changes :
      (s : MonitorState W) (ts : List Turn) (w : WatchState W)
      → Watches m s ts w
      → count_turns fired ts ≤ count_turns change ts
  fired-le-changes s ts w r = omega (arith, fired-le r)

  turns-timer :
      (ts : List Turn) (w : WatchState W)
      → NoFired ts
      → w.timer ≡ true
      → (turns m ts w).timer ≡ true
  unfolding turns turn
  turns-timer [] w n h = h
  turns-timer (change ∷ ts) w n h = turns-timer ts _ n (ground arith)
  turns-timer (closed ∷ ts) w n h = turns-timer ts _ n h
  turns-timer (fired ∷ ts) w n h = absurd n
  turns-timer (ticked ∷ ts) w n h = turns-timer ts _ n h

  -- After a change, whatever else happens, the timer runs until it has fired: the read that the
  -- change asks for stays due.
  pub change-pending :
      (s : MonitorState W) (ts later : List Turn) (w : WatchState W)
      → Watches m s ts w
      → NoFired later
      → IsReady m fired (turns m later (turn m change w))
  unfolding turn
  change-pending s ts later w r n = turns-timer later _ n (ground (arith, Watches-armed r))

  turn-change_armed : (w : WatchState W) → w.armed ≡ true → turn m change w ≡ w
  unfolding turn
  turn-change_armed w h = ap (λ b. if b then w else record w { armed = true; timer = true }) h

  turn-change_idle :
      (w : WatchState W)
      → w.armed ≡ false
      → turn m change w ≡ record w { armed = true; timer = true }
  unfolding turn
  turn-change_idle w h = ap (λ b. if b then w else record w { armed = true; timer = true }) h

  changes-absorbed :
      (n : ℕ) (rest : List Turn) (w : WatchState W)
      → w.armed ≡ true
      → turns m (changes n ++ rest) w ≡ turns m rest w
  unfolding turns
  changes-absorbed zero rest w h = refl
  changes-absorbed (suc n) rest w h =
      ap (turns m (changes n ++ rest)) (turn-change_armed w h) ∙ changes-absorbed n rest w h

  -- A burst of changes, however long, ends in one refresh: when the timer fires, the project has
  -- been read once more, and the loop waits for changes as before the burst.
  pub burst_refreshes_once :
      (s : MonitorState W) (ts : List Turn) (w : WatchState W) (n : ℕ)
      → Watches m s ts w
      → w.armed ≡ false
      → turns m (changes (suc n) ++ fired ∷ []) w ≡ record w { monitor = (refresh m w.monitor).1 }
  unfolding turns
  burst_refreshes_once s ts w n r h =
      ap (turns m (changes n ++ fired ∷ [])) (turn-change_idle w h)
      ∙ changes-absorbed n (fired ∷ []) (record w { armed = true; timer = true }) refl
      ∙ settled
    where
      settled :
          turn m fired (record w { armed = true; timer = true })
          ≡ record w { monitor = (refresh m w.monitor).1 }
      settled =
          unfold turn in
          λ i. record w {
            monitor = (refresh m w.monitor).1;
            armed = sym h i;
            timer = sym (sym (Watches-armed r) ∙ h) i;
          }
