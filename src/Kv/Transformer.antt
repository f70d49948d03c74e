-- ===== src/Kv/Transformer.antt =====
-- src/kv.rs: `TransformerKvLayer` and `TransformerKvCache`, the keys and values of the positions
-- that a session has decoded. An f32 is its bit pattern, and a Metal tensor an opaque handle.
use ds4_rs.Base.{
  ℕ, suc, ◌+◌, ◌-◌, ◌*◌, ◌≡◌, refl, ap, List, [], ◌∷◌, ◌++◌, Option, none, ltb, length, replicate,
  if◌then◌else◌, max, arith, length-append, length-replicate,
}

pub record TransformerKvLayer : Type 0 where
  pub keys : List ℕ
  pub values : List ℕ
  pub seq_len : ℕ
  pub metal_tensor : Option ℕ

-- TransformerKvLayer::new, and the default
abbrev pub new_layer : TransformerKvLayer
new_layer = record { keys = []; values = []; seq_len = 0; metal_tensor = none }

-- TransformerKvLayer::clear
unfoldable pub clear_layer : TransformerKvLayer → TransformerKvLayer
clear_layer layer = record layer { keys = []; values = []; seq_len = 0 }

-- TransformerKvLayer::push
unfoldable pub push_layer : TransformerKvLayer → List ℕ → List ℕ → TransformerKvLayer
push_layer layer key value = record layer {
  keys = layer.keys ++ key;
  values = layer.values ++ value;
  seq_len = layer.seq_len + 1;
}

-- `TransformerKvCache { layers }`
abbrev pub TransformerKvCache : Type 0
TransformerKvCache = List TransformerKvLayer

-- TransformerKvCache::with_layers
unfoldable pub with_layers : ℕ → TransformerKvCache
with_layers layer_count = replicate layer_count new_layer

-- TransformerKvCache::layer_count
abbrev pub layer_count : TransformerKvCache → ℕ
layer_count = length

-- TransformerKvCache::ensure_layers
unfoldable pub ensure_layers : TransformerKvCache → ℕ → TransformerKvCache
ensure_layers cache count =
    if ltb (length cache) count then cache ++ replicate (count - length cache) new_layer else cache

-- TransformerKvCache::clear
unfoldable pub clear : TransformerKvCache → TransformerKvCache
unfolding clear_layer
clear [] = []
clear (layer ∷ rest) = clear_layer layer ∷ clear rest

pub length-clear : (cache : TransformerKvCache) → layer_count (clear cache) ≡ layer_count cache
unfolding clear
length-clear [] = refl
length-clear (layer ∷ rest) = ap suc (length-clear rest)

-- Clearing twice is clearing once.
pub clear-clear : (cache : TransformerKvCache) → clear (clear cache) ≡ clear cache
unfolding clear
clear-clear [] = refl
clear-clear (layer ∷ rest) = ap (◌∷◌ (clear_layer layer)) (clear-clear rest)

pub length-ensure_layers :
    (cache : TransformerKvCache) (count : ℕ)
    → layer_count (ensure_layers cache count) ≡ max (layer_count cache) count
unfolding ensure_layers
length-ensure_layers cache count = ground (
  arith,
  length-append cache (replicate (count - length cache) new_layer),
  length-replicate (count - length cache) new_layer,
)

-- The sizes of a layer's buffers: `seq_len` positions, each a key of `dk` and a value of `dv`
-- numbers.
pub record IsPacked (dk dv : ℕ) (layer : TransformerKvLayer) : Type 0 where
  pub keys_size : length layer.keys ≡ layer.seq_len * dk
  pub values_size : length layer.values ≡ layer.seq_len * dv

-- Pushing a key of `dk` and a value of `dv` numbers keeps a layer packed: the position is counted,
-- and the buffers hold a key and a value for each position.
pub IsPacked-push :
    (dk dv : ℕ) (layer : TransformerKvLayer) (key value : List ℕ)
    → IsPacked dk dv layer
    → length key ≡ dk
    → length value ≡ dv
    → IsPacked dk dv (push_layer layer key value)
unfolding push_layer
IsPacked-push dk dv layer key value p hk hv = record {
  keys_size = rw (length-append layer.keys key) (grind (arith, p.keys_size));
  values_size = rw (length-append layer.values value) (grind (arith, p.values_size));
}

pub IsPacked-clear : (dk dv : ℕ) (layer : TransformerKvLayer) → IsPacked dk dv (clear_layer layer)
unfolding clear_layer
IsPacked-clear dk dv layer = omega arith
