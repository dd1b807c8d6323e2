-- ===== src/Main/Same.antt =====
-- src/main.rs and src/batch.rs: a sync of the command line and an entry of a batch do the same.
use Prim.Native.Char.{Char}
use rsqlite_rsync.Base.{
  ◌≡◌, refl, ap, ◌∙◌, not, ◌==◌, if◌then◌else◌, List, Option, none, some, Bool, true, false,
}
use rsqlite_rsync.Endpoint.{Endpoint, local, remote, grpc, parse}
use rsqlite_rsync.Batch.{BatchSyncSpec, BatchRuntimeOptions}
use rsqlite_rsync.Batch.Dispatch.{Syncs, or_token, sync_ends, run_one_inner}
use rsqlite_rsync.Batch.Dispatch
use rsqlite_rsync.Error.{page_size_mismatch, Result, ok, err, panic}
use rsqlite_rsync.Gateway.Host.{Call, continue_call}
use rsqlite_rsync.Main
use rsqlite_rsync.Main.{Args, count_pages, Modes, matched, sync_two, run, with_replica}

abbrev pub both_grpc : Endpoint → Endpoint → Bool
both_grpc (grpc u d) (grpc v e) = true
both_grpc (grpc u d) (local p) = false
both_grpc (grpc u d) (remote h p) = false
both_grpc (local p) e = false
both_grpc (remote h p) e = false

-- The two agree on a real sync.
module _ (s : Syncs) (token : Option (List Char)) (w : s.World) where
  sync_two-sync_ends :
      (o r : Endpoint)
      → both_grpc o r ≡ false
      → sync_two s false token o r w ≡ sync_ends s false token o r w
  unfolding sync_two sync_ends
  sync_two-sync_ends (local p) (local q) h = refl
  sync_two-sync_ends (local p) (remote u q) h = refl
  sync_two-sync_ends (local p) (grpc u q) h = refl
  sync_two-sync_ends (remote u p) (local q) h = refl
  sync_two-sync_ends (remote u p) (remote v q) h = refl
  sync_two-sync_ends (remote u p) (grpc v q) h = refl
  sync_two-sync_ends (grpc u p) (local q) h = refl
  sync_two-sync_ends (grpc u p) (remote v q) h = refl
  sync_two-sync_ends (grpc u p) (grpc v q) h = cc h

keeps_after :
    {W A B : Type 0} (w : W) (r : Result A) (f : A → Call W B)
    → ((a : A) → (f a w).0 ≡ w)
    → (continue_call (w, r) f).0 ≡ w
keeps_after w (ok a) f h = h a
keeps_after w (err e) f h = refl
keeps_after w panic f h = refl

keeps_if :
    {W A : Type 0} (w : W) (b : Bool) (x y : W × Result A)
    → x.0 ≡ w
    → y.0 ≡ w
    → (if b then x else y).0 ≡ w
keeps_if w true x y p q = p
keeps_if w false x y p q = q

module _ (s : Syncs) (token : Option (List Char)) (w : s.World) where
  count_keeps : (o : List Char) → (count_pages s o w).0 ≡ w
  count_keeps o = keeps_after w (s.read_page_count o w) _ (λ a. refl)

  main_dry_run_keeps : (o r : List Char) → (Main.dry_run_local s o r w).0 ≡ w
  unfolding Main.dry_run_local
  main_dry_run_keeps o r = keeps_after w (s.read_page_size o w) _ (λ a.
      keeps_if w (s.exists r w) _ _
        (keeps_after w (s.read_page_size r w) _ (λ b.
          keeps_if w (not (a == b)) (w, err (page_size_mismatch a b)) (count_pages s o w) refl
            (count_keeps o)))
        (count_keeps o))

  batch_dry_run_keeps : (o r : List Char) → (Dispatch.dry_run_local s o r w).0 ≡ w
  unfolding Dispatch.dry_run_local
  batch_dry_run_keeps o r =
      keeps_after w (s.read_page_size o w) _ (λ a.
        keeps_if w (s.exists r w) _ _ (keeps_after w (s.read_page_size r w) _ (λ b. refl)) refl)

  sync_two-dry_run : (o r : Endpoint) → (sync_two s true token o r w).0 ≡ w
  unfolding sync_two
  sync_two-dry_run (local p) (local q) = main_dry_run_keeps p q
  sync_two-dry_run (local p) (remote u q) = refl
  sync_two-dry_run (local p) (grpc u q) = refl
  sync_two-dry_run (remote u p) (local q) = refl
  sync_two-dry_run (remote u p) (remote v q) = refl
  sync_two-dry_run (remote u p) (grpc v q) = refl
  sync_two-dry_run (grpc u p) (local q) = refl
  sync_two-dry_run (grpc u p) (remote v q) = refl
  sync_two-dry_run (grpc u p) (grpc v q) = refl

  sync_ends-dry_run : (o r : Endpoint) → (sync_ends s true token o r w).0 ≡ w
  unfolding sync_ends
  sync_ends-dry_run (local p) (local q) = batch_dry_run_keeps p q
  sync_ends-dry_run (local p) (remote u q) = refl
  sync_ends-dry_run (local p) (grpc u q) = refl
  sync_ends-dry_run (remote u p) (local q) = refl
  sync_ends-dry_run (remote u p) (remote v q) = refl
  sync_ends-dry_run (remote u p) (grpc v q) = refl
  sync_ends-dry_run (grpc u p) (local q) = refl
  sync_ends-dry_run (grpc u p) (remote v q) = refl
  sync_ends-dry_run (grpc u p) (grpc v q) = refl

-- The arguments of a plain sync: no other mode, and both ends.
pub record IsSync {Command : Type 0} (args : Args Command) (o r : List Char) : Type 0 where
  pub no_command : args.command ≡ none
  pub no_batch : args.batch_manifest ≡ none
  pub no_ha : args.ha ≡ false
  pub no_replica_server : args.server_replica ≡ false
  pub no_server : args.server ≡ false
  pub no_origin_server : args.server_origin ≡ false
  pub origin : args.origin ≡ some o
  pub replica : args.replica ≡ some r

module _ (s : Syncs) {Command : Type 0} (modes : Modes s.World Command) (args : Args Command)
    (w : s.World) where
  run-sync_two :
      (o r : List Char)
      → IsSync args o r
      → run s modes args w
        ≡ sync_two s args.dry_run
            (or_token args.grpc_auth_token args.ha_grpc_auth_token)
            (parse o)
            (parse r)
            w
  unfolding run
  run-sync_two o r i =
      rw
        (
          i.no_command, i.no_batch, i.no_ha, i.origin, i.no_replica_server, i.no_server,
          i.no_origin_server, i.replica,
        )
        refl

  -- A plain sync of the command line that is no dry run does what the entry of a batch with the same ends and
  -- the same token does, and gives the same result, unless both ends are gRPC ones, whose errors differ.
  pub run-run_one_inner :
      (spec : BatchSyncSpec) (options : BatchRuntimeOptions)
      → IsSync args spec.origin spec.replica
      → args.dry_run ≡ false
      → or_token args.grpc_auth_token args.ha_grpc_auth_token
        ≡ or_token spec.grpc_auth_token options.grpc_auth_token
      → both_grpc (parse spec.origin) (parse spec.replica) ≡ false
      → run s modes args w ≡ run_one_inner s spec false options w
  unfolding run_one_inner
  run-run_one_inner spec options i real token apart =
      run-sync_two spec.origin spec.replica i
      ∙ rw (real, token)
          (sync_two-sync_ends s (or_token spec.grpc_auth_token options.grpc_auth_token) w
            (parse spec.origin) (parse spec.replica) apart)

  -- A dry run changes nothing, whatever its ends: neither a plain sync of the command line nor an entry of a
  -- batch.
  pub dry_run_keeps :
      (spec : BatchSyncSpec) (options : BatchRuntimeOptions)
      → IsSync args spec.origin spec.replica
      → args.dry_run ≡ true
      → ((run s modes args w).0 ≡ w) × ((run_one_inner s spec true options w).0 ≡ w)
  unfolding run_one_inner
  dry_run_keeps spec options i dry = (
    ap (λ (x : s.World × Result (Unit {0})). x.0) (run-sync_two spec.origin spec.replica i)
        ∙ rw dry (
            sync_two-dry_run s (or_token args.grpc_auth_token args.ha_grpc_auth_token) w
              (parse spec.origin) (parse spec.replica)),
    sync_ends-dry_run s (or_token spec.grpc_auth_token options.grpc_auth_token) w
        (parse spec.origin) (parse spec.replica),
  )
