-- ===== src/Tests/Shipments.antt =====
-- A file "a.b" on the sender's disk that reaches the receiver's output, with a toy digest.
use embr.Base.{[], arith, ok, refl, some, ◌++◌, ◌+◌, ◌∷◌, ◌≡◌}
use embr.Hash.Load.{hash_cache_load}
use embr.Hash.Workers.{run_workers}
use embr.Paths.{dot, hash_cache_path_for, hash_suffix, path_for, rfind}
use embr.Protocol.{Bytes, FileMeta}
use embr.Protocol.RoundTrip.{layout}
use embr.Pull.{output_for, run_pull}
use embr.Pull.Whole.{Completes}
use embr.Push.{run_push}
use embr.Push.Cached.{Finishes}
use embr.Push.Meta.{all_stopped, file_name_of, hashes_from, meta_for, precompute_meta}
use embr.Shipping.{its_meta, shipped_lem}
use embr.Tests.{quiet_world, small_meta}
use embr.Tests.Streams.{small_file}
use embr.Tests.Transfers.{
  all_granted, out_file, pulled, pulling_world, served, serving_world, toy_digest,
}
use embr.Transfer.{pull_sends, push_sends}
use embr.World.{World}
use embr.World.Files.{put_file, same_bytes}
use embr.World.Talk.{Talks}

abbrev ab_path : Bytes
ab_path = b'a' ∷ b'.' ∷ b'b' ∷ []

abbrev ab_cache : Bytes
ab_cache = dot ++ (ab_path ++ hash_suffix)

abbrev sending_disk : World
sending_disk = put_file ab_path small_file quiet_world

ab_named : hash_cache_path_for ab_path ≡ ok ab_cache
unfolding hash_cache_path_for rfind
ab_named = refl

ab_here : sending_disk.disk ab_path ≡ some small_file
unfolding same_bytes
ab_here = refl

ab_meta : FileMeta
ab_meta =
    its_meta toy_digest (λ b. refl) ab_path ab_cache small_file 1 5 sending_disk (omega arith)
      (omega arith) ab_named ab_here refl

ab_meta-eq-small_meta : ab_meta ≡ small_meta
unfolding ab_meta meta_for file_name_of rfind hashes_from
ab_meta-eq-small_meta = refl

ab_worker :
    Finishes toy_digest (λ b. refl) small_file (omega arith) (omega arith) 1 (0 ∷ 0 ∷ 0 ∷ [])
unfolding run_workers all_stopped
ab_worker = record { few = omega arith; of_workers = omega arith; stops = refl }

shipped_lem_example :
    ((precompute_meta toy_digest 1 (0 ∷ 0 ∷ 0 ∷ []) (some (1, 5)) ab_path sending_disk).0
      ≡ ok ab_meta)
    × Talks
        (run_push (ab_meta.chunk_count + 1) small_file ab_meta)
        ab_meta.chunk_count
        []
        (push_sends ab_meta small_file)
        0
        serving_world
    × Completes
        (run_pull toy_digest out_file)
        small_file
        (output_for out_file ab_meta)
        []
        (pull_sends ab_meta)
        0
        pulling_world
unfolding ab_meta meta_for file_name_of rfind hashes_from layout hash_cache_path_for same_bytes
    hash_cache_load path_for
shipped_lem_example =
    shipped_lem toy_digest (λ b. refl) ab_path ab_cache small_file 1 5 sending_disk (omega arith)
      (omega arith) ab_named ab_here refl 1 (0 ∷ 0 ∷ 0 ∷ []) out_file {ws = serving_world}
      {wr = pulling_world} ab_worker refl refl (omega arith) (omega arith) all_granted refl served
      pulled
