-- ===== src/Entity/Id.antt =====
-- pkg/entity/id.go: identifiers and their validation. All of them are Go strings. The proofs are in
-- the module below.
pub mod Shape
use temporal_entity.Base.{
  Bool, false, ◌||◌, none, some, [], ◌∷◌, ◌++◌, Str, codes, byte_eq, ◌==◌, if◌then◌else◌, Check,
  Result, ok, err, new_error, quote,
}

abbrev pub KindName : Type 0
KindName = Str

abbrev pub ResourceId : Type 0
ResourceId = Str

abbrev pub RequestId : Type 0
RequestId = Str

-- `strings.HasPrefix(s, "/")` and `strings.HasSuffix(s, "/")`
starts_with_slash : Str → Bool
starts_with_slash [] = false
starts_with_slash (c ∷ s) = byte_eq c b'/'

ends_with_slash : Str → Bool
ends_with_slash [] = false
ends_with_slash (c ∷ []) = byte_eq c b'/'
ends_with_slash (c ∷ d ∷ s) = ends_with_slash (d ∷ s)

unfoldable pub validate_kind : KindName → Check
unfolding ◌==◌
validate_kind k = if k == [] then some (new_error (codes "empty kind name")) else none

unfoldable pub validate_resource : ResourceId → Check
unfolding ◌==◌ starts_with_slash ends_with_slash
validate_resource r =
    if r == []
    then some (new_error (codes "empty resource id"))
    else if starts_with_slash r || ends_with_slash r
    then some
        (new_error (codes "resource id " ++ (quote r ++ codes " must not start or end with '/'")))
    else none

unfoldable pub validate_request : RequestId → Check
unfolding ◌==◌
validate_request r = if r == [] then some (new_error (codes "empty request id")) else none

unfoldable pub parse_resource_id : Str → Result ResourceId
unfolding validate_resource
parse_resource_id s = elim (validate_resource s) [ some e ↦ err e | none ↦ ok s ]

unfoldable pub parse_request_id : Str → Result RequestId
unfolding validate_request
parse_request_id s = elim (validate_request s) [ some e ↦ err e | none ↦ ok s ]
