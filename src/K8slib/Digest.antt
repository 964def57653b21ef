-- ===== src/K8slib/Digest.antt =====
-- examples/reconciler/k8slib/k8slib.go, `digestOf`, over `sha256.Sum256`, a parameter.
use temporal_entity.Base.{ℕ, ◌+◌, ◌/◌, ◌%◌, [], ◌∷◌, Str, take, ltb, if◌then◌else◌}
use temporal_entity.Entity.Command.{Payload}

hex_nibble : ℕ → ℕ
hex_nibble n = if ltb n 10 then n + b'0' else n + 87

-- `hex.EncodeToString`
unfoldable pub hex_encode : Str → Str
unfolding hex_nibble
hex_encode [] = []
hex_encode (b ∷ bytes) = hex_nibble (b / 16) ∷ hex_nibble (b % 16) ∷ hex_encode bytes

-- `digestOf`
unfoldable pub digest_of : (Payload → Str) → Payload → Str
unfolding hex_encode
digest_of sha256 manifest = hex_encode (take 8 (sha256 manifest))
