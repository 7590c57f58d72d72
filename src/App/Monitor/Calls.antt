-- ===== src/App/Monitor/Calls.antt =====
-- Which calls of the container runtime the actions make. The ports are observed: a world carries
-- the list of the calls of `ports.ContainerControl` so far, newest first.
use compose_monitor.Base.{
  ◌≡◌, refl, inl, inr, Bool, List, [], ◌∷◌, Option, none, some, Text, bytes, if◌then◌else◌,
  Option-cases,
}
use compose_monitor.Base.Failure.{Act, Result, ok, err}
use compose_monitor.Base.Failure.Rules.{wrapped-rule, Answers}
use compose_monitor.Domain.{Service, Event}
use compose_monitor.App.Snapshot.{diff_snapshots, index_services}
use compose_monitor.App.Ports.{ContainerControl}
use compose_monitor.App.Monitor.{
  MonitorService, MonitorState, through, observe, find_service, publish_all, refresh, controllable,
  pick_target, exchange,
}

pub data Call : Type 0 where
  starts stops removes : Text → Call

abbrev pub Observed : Type 0 → Type 0
Observed W = W × List Call

-- A call that is none of `ports.ContainerControl`.
abbrev pub unseen : {W A : Type 0} → Act W A → Act (Observed W) A
unseen call (w, calls) = let (r, w') = call w in (r, (w', calls))

abbrev pub seen : {W A : Type 0} → Call → Act W A → Act (Observed W) A
seen c call (w, calls) = let (r, w') = call w in (r, (w', c ∷ calls))

abbrev pub observe_control : {W : Type 0} → ContainerControl W → ContainerControl (Observed W)
observe_control c = record {
  start = λ id. seen (starts id) (c.start id);
  stop = λ id. seen (stops id) (c.stop id);
  remove = λ id. seen (removes id) (c.remove id);
}

abbrev pub observed : {W : Type 0} → MonitorService W → MonitorService (Observed W)
observed m = record {
  source = record {
    list = unseen m.source.list;
    inspect = λ id. unseen (m.source.inspect id);
    logs = λ id tail. unseen (m.source.logs id tail);
    usage = unseen m.source.usage;
  };
  control = elim m.control [ none ↦ none | some c ↦ some (observe_control c) ];
  broadcaster = record { publish = λ e. unseen (m.broadcaster.publish e) };
}

-- The container that an action on `id` would find: acting is allowed, the project can be listed,
-- and the listing holds it.
abbrev pub find_listed : Text → Result (List Service) → Option Service
find_listed id (ok services) = find_service id services
find_listed id (err e) = none

-- The calls after an action on what was found: one more where the service passes the test.
abbrev pub called : (Service → Bool) → Call → Option Service → List Call → List Call
called test c none calls = calls
called test c (some t) calls = if test t then c ∷ calls else calls

module _ {W : Type 0} (m : MonitorService W) where
  abbrev pub target : Text → W → Option Service
  target id w = elim m.control [ none ↦ none | some _ ↦ find_listed id (m.source.list w).0 ]

  publish_all-calls : (es : List Event) (w : Observed W) → (publish_all (observed m) es w).1.1 ≡ w.1
  unfolding publish_all
  publish_all-calls [] w = refl
  publish_all-calls (e ∷ es) w = publish_all-calls es ((m.broadcaster.publish e w.0).1, w.1)

  observe-calls :
      (services : List Service) (s : MonitorState (Observed W))
      → (observe (observed m) services s).1.world.1 ≡ s.world.1
  unfolding observe exchange
  observe-calls services s =
      publish_all-calls (diff_snapshots s.snapshot (index_services services)) s.world

  pub refresh-calls :
      (s : MonitorState (Observed W)) → (refresh (observed m) s).1.world.1 ≡ s.world.1
  unfolding refresh
  refresh-calls s =
      wrapped-rule (λ out. out.1.world.1 ≡ s.world.1) (bytes "listing services")
        (through (observed m) (observed m).source.list) (observe (observed m)) s
        (λ services _. observe-calls services _) (λ e _. refl)

  -- `controllable` makes no call, and succeeds with the target where there is one.
  abbrev pub Resolves :
      Option Service → List Call → Result Service × MonitorState (Observed W) → Type 0
  Resolves found calls (r, s) = (s.world.1 ≡ calls) × Answers found r

  pick_target-Resolves :
      (id : Text) (services : List Service) (s : MonitorState (Observed W))
      → Resolves (find_service id services) s.world.1 (pick_target (observed m) id services s)
  unfolding pick_target
  pick_target-Resolves id services s = elim (Option-cases (find_service id services)) [
    | inl missing ↦ rw (missing, pick_target) (refl, tt)
    | inr (t, found) ↦ rw (found, pick_target) (refl, refl)
  ]

  pub controllable-Resolves :
      (id : Text) (s : MonitorState (Observed W))
      → Resolves (target id s.world.0) s.world.1 (controllable (observed m) id s)
  unfolding controllable
  controllable-Resolves id s = elim (Option-cases m.control) [
    | inl off ↦ rw (off, controllable) (refl, tt)
    | inr (c, on) ↦
        rw (on, controllable)
          (wrapped-rule (Resolves (find_listed id (m.source.list s.world.0).0) s.world.1)
            (bytes "listing services before acting") (through (observed m) (observed m).source.list)
            (pick_target (observed m) id) s
            (λ services listed. rw listed (pick_target-Resolves id services _))
            (λ e failed. rw failed (refl, tt)))
  ]

  pub target-control :
      (id : Text) (w : W) (t : Service)
      → target id w ≡ some t
      → (c : ContainerControl W) × (m.control ≡ some c)
  target-control id w t e = elim (Option-cases m.control) [ inl off ↦ cc (off) | inr on ↦ on ]
