-- ===== src/Pull/Steps.antt =====
-- The file operations of run_pull (src/core/pull.cpp) as steps of a conversation.
use embr.Base.{
  Option, [], ap, append-nil, ap₂, drop, if◌then◌else◌, length, ok, refl, some, sym, take, true, ℕ,
  ◌++◌, ◌∙◌, ◌≡◌, ◌≢◌,
}
use embr.Chunks.{ChunkManager}
use embr.Partial.{save}
use embr.Partial.RoundTrip.{IsPackable, save_writes}
use embr.Paths.{path_for}
use embr.Protocol.{Bytes}
use embr.Pull.Output.{map_range}
use embr.Tcp.{patch, recv_file}
use embr.Tcp.Moves.{recv_file-Written}
use embr.World.{World}
use embr.World.Files.{content, same_bytes, same_bytes_ne, same_bytes_refl}
use embr.World.Runs.{Runs, Runs-files}
use embr.World.Talk.{Peer}

abbrev pub Disk : Type 0
Disk = Bytes → Option Bytes

-- The files after one is written.
abbrev pub with_file : Bytes → Bytes → Disk → Disk
with_file path bytes d = λ p. if same_bytes p path then some bytes else d p

pub with_file_self : (path bytes : Bytes) (d : Disk) → with_file path bytes d path ≡ some bytes
with_file_self path bytes d = rw (same_bytes_refl path)

pub with_file_ne : (path bytes p : Bytes) (d : Disk) → p ≢ path → with_file path bytes d p ≡ d p
with_file_ne path bytes p d h = rw (same_bytes_ne p path h)

module _ {rest : Bytes} {n : ℕ} {w : World} where
  pub recv_file-Runs :
      (path held : Bytes) (offset len : ℕ) (bs : Bytes)
      → length bs ≡ len
      → w.disk path ≡ some held
      → Peer w (bs ++ rest) n
      → Runs
          (recv_file path offset len)
          tt
          (with_file path (patch held offset bs) w.disk)
          rest
          []
          n
          w
  recv_file-Runs path held offset len bs sized there p =
      let r = recv_file-Written path offset bs rest p.incoming in
      let at_len : recv_file path offset len w ≡ recv_file path offset (length bs) w =
        ap (λ (k : ℕ). recv_file path offset k w) (sym sized) in
      let holds : content path w ≡ held = rw (there, content) in
      record {
        heard = r.after;
        room = w.acceptances;
        runs =
            at_len
            ∙ r.runs
            ∙ ap₂
                (λ (x : Bytes) (y : Bytes). (
                  ok tt,
                  record w {
                    arrivals = r.after;
                    wire = y;
                    disk = with_file path (patch x offset bs) w.disk;
                  },
                ))
                holds (sym (append-nil w.wire));
        is_open = r.is_open;
        delivers = r.delivers;
        is_ready = p.ready.is_ready;
        has_room = p.ready.has_room;
      }

  pub map_range-Runs :
      (path held : Bytes) (offset len : ℕ)
      → w.disk path ≡ some held
      → w.may_map len ≡ true
      → Peer w rest n
      → Runs (map_range path offset len) (take len (drop offset held)) w.disk rest [] n w
  unfolding map_range
  map_range-Runs path held offset len there granted =
      Runs-files w.disk (rw (granted, there, content) refl)

  -- What save writes.
  pub save-Runs :
      (out file_hash : Bytes) (cm : ChunkManager)
      → IsPackable cm
      → w.may_write (path_for out) ≡ true
      → Peer w rest n
      → (bytes : Bytes) × Runs
          (save out file_hash cm)
          tt
          (with_file (path_for out) bytes w.disk)
          rest
          []
          n
          w
  save-Runs out file_hash cm h granted p =
      let (bytes, e) = save_writes out file_hash cm w h granted in
      (bytes, Runs-files (with_file (path_for out) bytes w.disk) e p)
