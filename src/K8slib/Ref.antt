-- ===== src/K8slib/Ref.antt =====
-- examples/reconciler/k8slib/k8slib.go: references to objects. The proofs are in the module below.
pub mod Names
use temporal_entity.Base.{
  ℕ, suc, ◌+◌, Bool, true, false, ◌||◌, Option, none, some, [], ◌∷◌, ◌++◌, Str, codes, byte_eq,
  length, leb, take, drop, quote, Result, ok, err, new_error, if◌then◌else◌,
}
use temporal_entity.Entity.Id.{ResourceId}

pub record ObjectRef : Type 0 where
  pub namespace : Str
  pub name : Str

-- `ID`
abbrev pub ref_id : ObjectRef → ResourceId
ref_id r = r.namespace ++ (b'/' ∷ r.name)

-- `strings.IndexByte`
index_byte : ℕ → Str → Option ℕ
index_byte c [] = none
index_byte c (x ∷ s) =
    let rest = index_byte c s in
    if byte_eq x c then some 0 else elim rest [ none ↦ none | some i ↦ some (suc i) ]

-- `ParseObjectRef`; an index is less than the length, so `i == len(s)-1` is a sum.
unfoldable pub parse_object_ref : Str → Result ObjectRef
unfolding index_byte
parse_object_ref s =
    let bad = err (new_error (codes "object ref " ++ (quote s ++ codes ": want namespace/name"))) in
    elim (index_byte b'/' s) [
      | none ↦ bad
      | some i ↦
          if leb i 0 || byte_eq (i + 1) (length s)
          then bad
          else ok (record { namespace = take i s; name = drop (i + 1) s })
    ]
