-- ===== src/Slicer/Masks.antt =====
-- The masks and the columns of a slicer, and the masks that columns build (slicer.py).
use httk_store.Prelude.{
  ℕ, String, Option, List, [], ◌∷◌, if◌then◌else◌, eqb, Result, ok, err, ◌>>=◌,
}
use httk_store.Slicer.{Op, Node, Refused, cmp, both, either, neg, eq, ne, le, ge, other_slicer}

-- A SlicerMask; the slicer is known by its identity.
pub record Mask (V : Type 0) : Type 0 where
  pub slicer : ℕ
  pub ast : Node V

-- The other operand of a mask operator.
pub data Operand (V : Type 0) : Type 0 where
  a_mask : Mask V → Operand V
  no_mask : Operand V

-- `_require_sibling`
unfoldable pub require_sibling : {V : Type 0} → Mask V → Operand V → Result Refused (Mask V)
require_sibling mask no_mask = err other_slicer
require_sibling mask (a_mask other) =
    if eqb other.slicer mask.slicer then ok other else err other_slicer

-- `&`, `|`, `^` and `~` on masks.
unfoldable pub mask_and : {V : Type 0} → Mask V → Operand V → Result Refused (Mask V)
unfolding require_sibling
mask_and mask other = do
  sibling ← require_sibling mask other
  ok (record { slicer = mask.slicer; ast = both mask.ast sibling.ast })

unfoldable pub mask_or : {V : Type 0} → Mask V → Operand V → Result Refused (Mask V)
unfolding require_sibling
mask_or mask other = do
  sibling ← require_sibling mask other
  ok (record { slicer = mask.slicer; ast = either mask.ast sibling.ast })

unfoldable pub mask_xor : {V : Type 0} → Mask V → Operand V → Result Refused (Mask V)
unfolding require_sibling
mask_xor mask other = do
  sibling ← require_sibling mask other
  ok (record {
    slicer = mask.slicer;
    ast = both (either mask.ast sibling.ast) (neg (both mask.ast sibling.ast));
  })

unfoldable pub mask_invert : {V : Type 0} → Mask V → Mask V
mask_invert mask = record { slicer = mask.slicer; ast = neg mask.ast }

-- A SlicerColumn, and the masks that it builds.
pub record Column (V : Type 0) : Type 0 where
  pub slicer : ℕ
  pub path : List String
  pub ast : Option (Node V)

-- The six comparisons.
unfoldable pub compare_column : {V : Type 0} → Op → Column V → V → Mask V
compare_column op c value = record { slicer = c.slicer; ast = cmp c.path op (value ∷ []) }

-- The three matchers that `str` gives.
unfoldable pub match_column : {V : Type 0} → Op → Column V → V → Mask V
match_column op c pat = record { slicer = c.slicer; ast = cmp c.path op (pat ∷ []) }

unfoldable pub isin : {V : Type 0} → Column V → List V → Mask V
isin c values = record { slicer = c.slicer; ast = cmp c.path Op.is_in values }

unfoldable pub isna : {V : Type 0} → V → Column V → Mask V
isna null c = record { slicer = c.slicer; ast = cmp c.path eq (null ∷ []) }

unfoldable pub notna : {V : Type 0} → V → Column V → Mask V
notna null c = record { slicer = c.slicer; ast = cmp c.path ne (null ∷ []) }

unfoldable pub between : {V : Type 0} → Column V → V → V → Mask V
between c low high = record {
  slicer = c.slicer;
  ast = both (cmp c.path ge (low ∷ [])) (cmp c.path le (high ∷ []));
}
