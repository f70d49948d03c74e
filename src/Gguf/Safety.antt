-- ===== src/Gguf/Safety.antt =====
-- src/gguf.rs: the panics that loading a model could meet.
use ds4_rs.Base.{All, ℕ, ◌^◌, ◌≤◌, ◌<◌, refl, [], Bool, true, false, length, arith, ◌==◌, ltb, not}
use ds4_rs.Bytes.{Bytes, IsByte}
use ds4_rs.Error.{Message}
use ds4_rs.Error.NoPanic.{NoPanic, NoPanic-ok, NoPanic-bind}
use ds4_rs.Gguf.Reader.{read_u32-IsRead, read_u64-IsRead}
use ds4_rs.Gguf.Alignment.{IsFor, read_entries-IsFor}
use ds4_rs.Gguf.InBounds.{
  NoPanic-align_up, NoPanic-place_tensors, read_tensors-IsRead, read_entries-IsRead,
}
use ds4_rs.Gguf.Tensors.{GgufModel, parse_tensors}
use ds4_rs.Gguf.Load.{require_else, gguf_magic, blank_model, load_model}

NoPanic-parse_tensors :
    (file : Bytes) (model : GgufModel) (pos : ℕ)
    → pos ≤ length file
    → length file < 2 ^ 63
    → IsFor file model
    → NoPanic (parse_tensors file model pos)
unfolding parse_tensors
NoPanic-parse_tensors file model pos inside small aligned =
    let tables = read_tensors-IsRead file model.n_tensors ([], []) pos inside in
    NoPanic-bind _ _ tables.no_panic λ read e.
      NoPanic-bind _ _
        (NoPanic-align_up read.1 model.alignment
          (omega (arith, (tables.ends read.0 read.1 e).1, small, aligned.0)))
        λ data_pos _.
          NoPanic-bind _ _ (NoPanic-place_tensors model.file_size data_pos read.0.0)
            λ placed _. NoPanic-ok _

NoPanic-require_else : (b : Bool) (m : Message) → NoPanic (require_else b m)
NoPanic-require_else true m = record { at = λ e. cc }
NoPanic-require_else false m = record { at = λ e. cc }

-- Loading any file of fewer than 2^63 bytes does not panic: every slice that it takes lies in the
-- file, and no sum overflows.
pub NoPanic-load_model :
    (path file : Bytes) → All IsByte file → length file < 2 ^ 63 → NoPanic (load_model path file)
unfolding load_model
NoPanic-load_model path file bytes small =
    NoPanic-bind _ _ (NoPanic-require_else (not (ltb (length file) 32)) _) λ _ _.
      NoPanic-bind _ _ (read_u32-IsRead file 0).no_panic λ magic _.
        NoPanic-bind _ _ (NoPanic-require_else (magic.0 == gguf_magic) _) λ _ _.
          NoPanic-bind _ _ (read_u32-IsRead file magic.1).no_panic λ version _.
            NoPanic-bind _ _ (NoPanic-require_else (version.0 == 3) _) λ _ _.
              NoPanic-bind _ _ (read_u64-IsRead file version.1).no_panic λ n_tensors _.
                NoPanic-bind _ _ (read_u64-IsRead file n_tensors.1).no_panic λ n_kv e.
                  let start : n_kv.1 ≤ length file =
                    ((read_u64-IsRead file n_tensors.1).ends n_kv.0 n_kv.1 e).1 in
                  let blank : GgufModel = blank_model version.0 n_tensors.0 n_kv.0 (length file) in
                  let entries = read_entries-IsRead file n_kv.0 blank n_kv.1 start in
                  NoPanic-bind _ _ entries.no_panic λ read f.
                    NoPanic-bind _ _
                      (NoPanic-parse_tensors file read.0 read.1 (entries.ends read.0 read.1 f).1
                        small
                        ((read_entries-IsFor file bytes n_kv.0 blank n_kv.1
                            (omega arith, refl)).holds
                          read.0 read.1 f))
                      λ model _. NoPanic-ok _
