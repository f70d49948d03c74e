-- ===== src/Tests/Data.antt =====
-- The values on which the theorems are tried.
use ds4_rs.Base.{ℕ, ◌+◌, ◌≡◌, refl, [], ◌∷◌, ◌&&◌, none, some, Bool, true, ltb, All, arith}
use ds4_rs.Bytes.{Bytes, IsByte}
use ds4_rs.Continuation.{ContinuationEntry}
use ds4_rs.Engine.{Engine}
use ds4_rs.Gguf.Tensors.{GgufModel, GgufTensor}
use ds4_rs.Kv.Format.{KvToolReplayEntry, KvEntry}
use ds4_rs.Kv.Store.{KvCache}
use ds4_rs.Kv.Store.Disk.{KvDiskStore}
use ds4_rs.Server.State.{Clock}
use ds4_rs.Session.{Session}

-- An engine that answers every step, and counts the steps in its scratch.
abbrev pub counting : Engine
counting = record {
  Scratch = ℕ;
  new_scratch = 0;
  vocab_size = 3;
  try_reference_decode_next =
      λ kv scratch token pos. (some (token ∷ pos ∷ scratch ∷ []), kv, scratch + 1);
  stub_infer_logits = λ tokens. 1 ∷ 2 ∷ [];
}

abbrev pub fresh : Session counting
fresh = record {
  ctx_size = 8;
  checkpoint = [];
  logits = 0 ∷ 0 ∷ [];
  progress = none;
  prefill_boundary = none;
  transformer_kv = [];
  decode_scratch = 0;
}

abbrev pub busy : Session counting
busy = record {
  ctx_size = 8;
  checkpoint = 5 ∷ 6 ∷ [];
  logits = 1 ∷ 3 ∷ 2 ∷ [];
  progress = some [];
  prefill_boundary = some 3;
  transformer_kv = [];
  decode_scratch = 2;
}

-- The snapshot of `busy`.
abbrev pub snapshot_bytes : Bytes
snapshot_bytes =
    68 ∷ 83 ∷ 86 ∷ 52 ∷ 1 ∷ 0 ∷ 0 ∷ 0 ∷ 8 ∷ 0 ∷ 0 ∷ 0 ∷ 3 ∷ 0 ∷ 0 ∷ 0 ∷ 0 ∷ 0 ∷ 0 ∷ 0 ∷ 0 ∷ 0 ∷ 0
    ∷ 0 ∷ 0 ∷ 0 ∷ 0 ∷ 0 ∷ 2 ∷ 0 ∷ 0 ∷ 0 ∷ 0 ∷ 0 ∷ 0 ∷ 0 ∷ 0 ∷ 0 ∷ 0 ∷ 0 ∷ 0 ∷ 0 ∷ 0 ∷ 0 ∷ 3 ∷ 0 ∷ 0
    ∷ 0 ∷ 0 ∷ 0 ∷ 0 ∷ 0 ∷ 5 ∷ 0 ∷ 0 ∷ 0 ∷ 6 ∷ 0 ∷ 0 ∷ 0 ∷ 1 ∷ 0 ∷ 0 ∷ 0 ∷ 3 ∷ 0 ∷ 0 ∷ 0 ∷ 2 ∷ 0 ∷ 0
    ∷ 0 ∷ []

abbrev pub replay_item : KvToolReplayEntry
replay_item = record { tool_call_id = 99 ∷ 49 ∷ []; sampled_block = 123 ∷ 125 ∷ [] }

abbrev pub sample_entry : KvEntry
sample_entry = record {
  reason = 99 ∷ 111 ∷ 108 ∷ 100 ∷ [];
  rendered_text = 104 ∷ 105 ∷ [];
  tokens = 5 ∷ 6 ∷ [];
  snapshot = record { bytes = snapshot_bytes };
  tool_replay = replay_item ∷ [];
  ctx_size = 0;
  hit_count = 4;
  created_at_unix = 1000;
  last_used_at_unix = 2000;
}

abbrev pub empty_disk : KvDiskStore
empty_disk = record { files = []; writable = true; torn = λ bytes. none }

abbrev pub disk_cache : KvCache
disk_cache = record { by_key = []; disk = some empty_disk }

abbrev pub sample_response : ContinuationEntry
sample_response = record {
  response_id = 114 ∷ 49 ∷ [];
  visible_text = 104 ∷ 105 ∷ [];
  conversation = some (99 ∷ []);
  last_tool_call_id = some (116 ∷ []);
  snapshot = record { bytes = [] };
  created_at_ms = 10;
  last_used_ms = 10;
}

-- A model file with an alignment of 8 and one tensor of two bytes, `w`.
abbrev pub model_file : Bytes
model_file =
    71 ∷ 71 ∷ 85 ∷ 70 ∷ 3 ∷ 0 ∷ 0 ∷ 0 ∷ 1 ∷ 0 ∷ 0 ∷ 0 ∷ 0 ∷ 0 ∷ 0 ∷ 0 ∷ 1 ∷ 0 ∷ 0 ∷ 0 ∷ 0 ∷ 0 ∷ 0
    ∷ 0 ∷ 17 ∷ 0 ∷ 0 ∷ 0 ∷ 0 ∷ 0 ∷ 0 ∷ 0 ∷ 103 ∷ 101 ∷ 110 ∷ 101 ∷ 114 ∷ 97 ∷ 108 ∷ 46 ∷ 97 ∷ 108
    ∷ 105 ∷ 103 ∷ 110 ∷ 109 ∷ 101 ∷ 110 ∷ 116 ∷ 4 ∷ 0 ∷ 0 ∷ 0 ∷ 8 ∷ 0 ∷ 0 ∷ 0 ∷ 1 ∷ 0 ∷ 0 ∷ 0 ∷ 0
    ∷ 0 ∷ 0 ∷ 0 ∷ 119 ∷ 1 ∷ 0 ∷ 0 ∷ 0 ∷ 2 ∷ 0 ∷ 0 ∷ 0 ∷ 0 ∷ 0 ∷ 0 ∷ 0 ∷ 24 ∷ 0 ∷ 0 ∷ 0 ∷ 0 ∷ 0 ∷ 0
    ∷ 0 ∷ 0 ∷ 0 ∷ 0 ∷ 0 ∷ 0 ∷ 0 ∷ 0 ∷ 0 ∷ 0 ∷ 0 ∷ 7 ∷ 9 ∷ []

abbrev pub model_tensor : GgufTensor
model_tensor = record {
  name = 119 ∷ [];
  ndim = 1;
  dims = 2 ∷ [];
  tensor_type = 24;
  rel_offset = 0;
  abs_offset = 96;
  elements = 2;
  bytes = 2;
}

abbrev pub loaded_model : GgufModel
loaded_model = record {
  version = 3;
  n_tensors = 1;
  n_kv = 1;
  alignment = 8;
  file_size = 98;
  tensor_data_pos = 96;
  architecture = none;
  vocab_size = none;
  tokenizer_tokens = [];
  tokenizer_merges = [];
  tensors = model_tensor ∷ [];
  tensors_by_name = (119 ∷ [], 0) ∷ [];
  file_data = model_file;
}

abbrev are_bytes : Bytes → Bool
are_bytes [] = true
are_bytes (b ∷ bs) = ltb b 256 && are_bytes bs

are_bytes_sound : (bs : Bytes) → are_bytes bs ≡ true → All IsByte bs
are_bytes_sound [] h = tt
are_bytes_sound (b ∷ bs) h = ground (arith, are_bytes_sound bs)

pub model_file-IsByte : All IsByte model_file
model_file-IsByte = are_bytes_sound model_file refl

abbrev pub sample_clock : Clock
sample_clock = record {
  restored_ms = 1;
  response_ms = 2;
  response_secs = 3;
  final_ms = 4;
  final_secs = 5;
  stored_unix = 6;
  remembered_ms = 7;
}
