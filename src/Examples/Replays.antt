-- ===== src/Examples/Replays.antt =====
-- The replays of the workspace at a small journal.
use texo.Base.{◌≡◌, refl, [], ◌++◌, ok, arith}
use texo.Events.Coordinate.{scope_for_workspace}
use texo.Journal.{Holds}
use texo.Journal.Through.{upto}
use texo.Workspace.Types.{WorkspaceView, ProjectionFreshness, default}
use texo.Workspace.Assemble.{assemble, assemble_through}
use texo.Workspace.Assemble.Warm.{IsSynced, replayed_view, assemble_replays}
use texo.Workspace.Assemble.Snapshot.{assemble_through_lem, exact_view, snapshot_consistent}
use texo.Workspace.Sidecar.Restart.{Reached, restart_replays}
use texo.Examples.Data.{demo, payload, early, late, latest, store_of}

pub early_store : Holds (store_of early) (scope_for_workspace demo) payload early
early_store = record {
  sequenced = (omega arith, (omega arith, (omega arith, tt)));
  pages = λ after limit. refl;
  readable = ((refl, refl), ((refl, refl), ((refl, refl), tt)));
}

pub whole_store :
    Holds (store_of (early ++ late)) (scope_for_workspace demo) payload (early ++ late)
whole_store = record {
  sequenced =
      (omega arith, (omega arith, (omega arith, (omega arith, (omega arith, (omega arith, tt))))));
  pages = λ after limit. refl;
  readable = (
    (refl, refl),
    ((refl, refl), ((refl, refl), ((refl, refl), ((refl, refl), ((refl, refl), tt))))),
  );
}

pub latest_store :
    Holds
      (store_of ((early ++ late) ++ latest))
      (scope_for_workspace demo)
      payload
      ((early ++ late) ++ latest)
latest_store = record {
  sequenced = (
    omega arith,
    (
      omega arith,
      (omega arith, (omega arith, (omega arith, (omega arith, (omega arith, (omega arith, tt)))))),
    ),
  );
  pages = λ after limit. refl;
  readable = (
    (refl, refl),
    (
      (refl, refl),
      (
        (refl, refl),
        ((refl, refl), ((refl, refl), ((refl, refl), ((refl, refl), ((refl, refl), tt))))),
      ),
    ),
  );
}

synced : IsSynced payload demo default []
synced = record { cards_at = refl; frontier_at = refl; view_at = λ v e. cc e }

assemble_replays_example :
    let assembled = assemble 7 (store_of (early ++ late)) demo default in
    (assembled.0 ≡ ok (replayed_view payload demo (early ++ late)))
    × IsSynced payload demo assembled.1 (early ++ late)
    × (assembled.1.freshness ≡ ProjectionFreshness.fresh)
assemble_replays_example =
    assemble_replays (store_of (early ++ late)) payload demo (early ++ late) whole_store 7
      (omega arith) [] (early ++ late) default refl (λ _. synced)

assemble_through_lem_example :
    assemble_through 7 (store_of (early ++ late)) demo 3
    ≡ exact_view payload demo 3 (upto 3 (early ++ late))
assemble_through_lem_example =
    assemble_through_lem (store_of (early ++ late)) payload demo (early ++ late) whole_store 7
      (omega arith) 3

snapshot_consistent_example :
    (v : WorkspaceView) × ((assemble 4 (store_of early) demo default).0 ≡ ok v)
    × (assemble_through 7 (store_of (early ++ late)) demo v.frontier ≡ ok v)
snapshot_consistent_example =
    snapshot_consistent payload demo (store_of early) (store_of (early ++ late)) early late []
      default 4 7 early_store whole_store (omega arith) (omega arith) (λ _. synced)

grown_cache : Reached payload demo (early ++ late) (assemble 4 (store_of early) demo default).1
grown_cache =
    Reached.grown late
      (Reached.assembled (store_of early) 4 early_store (omega arith) (Reached.started early))

restart_replays_example :
    (assemble 7 (store_of (early ++ late)) demo (assemble 4 (store_of early) demo default).1).0
    ≡ ok (replayed_view payload demo (early ++ late))
restart_replays_example =
    restart_replays payload demo (early ++ late) (assemble 4 (store_of early) demo default).1
      (store_of (early ++ late)) 7 grown_cache whole_store (omega arith)
