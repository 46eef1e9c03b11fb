-- ===== src/DataModel/Keys.antt =====
-- Base/Base/TypeIDBase.h, DataModel/DataModel/{ProductKey, TransitionRecordKey}.h: the keys and
-- their order. A text is the list of its bytes.
use Prim.Native.Nat.{Ordering, lt, eq, gt}
use unify_prototype.Common.{
  ℕ, ◌≡◌, ◌↔◌, ap, List, Option, none, some, arith, ltb, ◌==◌, if◌then◌else◌,
}
use unify_prototype.Common.Order.{
  Ord, nat_ord, list_ord, and_then, cmp_list, cmp_pair-eq_iff, cmp_pair-gt, cmp_pair_trans,
  pair_ord,
}

abbrev pub Text : Type 0
Text = List ℕ

-- A `std::type_info` by its place in the order of `type_info::before`.
pub record TypeIdBase : Type 0 where
  pub type_info : ℕ

-- `typeid(TypeIDBase::Def)`.
abbrev pub def_info : ℕ
def_info = 0

-- The constructor from a pointer, null for `none`.
unfoldable pub type_id : Option ℕ → TypeIdBase
type_id none = record { type_info = def_info }
type_id (some t) = record { type_info = t }

-- `TypeIDBase::operator<=>`.
abbrev pub cmp_type_id : TypeIdBase → TypeIdBase → Ordering
cmp_type_id a b =
    if a.type_info == b.type_info then eq else if ltb a.type_info b.type_info then lt else gt

pub record ProductKey : Type 0 where
  pub type_id : TypeIdBase
  pub module_label : Text
  pub product_instance_name : Text
  pub process_name : Text

-- `ProductKey::operator<=>`, the default: by the members in their order.
abbrev pub cmp_product_key : ProductKey → ProductKey → Ordering
cmp_product_key a b = and_then (cmp_type_id a.type_id b.type_id) (
    and_then (cmp_list a.module_label b.module_label) (
      and_then (cmp_list a.product_instance_name b.product_instance_name)
        (cmp_list a.process_name b.process_name)))

pub record TransitionRecordKey : Type 0 where
  pub type_id : TypeIdBase

-- `TransitionRecordKey::operator<=>`, the default.
abbrev pub cmp_transition_record_key : TransitionRecordKey → TransitionRecordKey → Ordering
cmp_transition_record_key a b = cmp_type_id a.type_id b.type_id

pub cmp_type_id-eq_iff : (a b : TypeIdBase) → (cmp_type_id a b ≡ eq) ↔ (a ≡ b)
cmp_type_id-eq_iff a b = ground arith

pub cmp_type_id-gt : (a b : TypeIdBase) → cmp_type_id a b ≡ gt → cmp_type_id b a ≡ lt
cmp_type_id-gt a b h = ground arith

pub cmp_type_id_trans :
    (a b c : TypeIdBase) → cmp_type_id a b ≡ lt → cmp_type_id b c ≡ lt → cmp_type_id a c ≡ lt
cmp_type_id_trans a b c h k = ground arith

instance abbrev pub type_id_ord : Ord TypeIdBase
type_id_ord = record {
  cmp = cmp_type_id;
  cmp-eq_iff = cmp_type_id-eq_iff;
  cmp-gt = cmp_type_id-gt;
  cmp-trans = cmp_type_id_trans;
}

-- The members as nested pairs, on which the comparison is that of the library.
abbrev members : ProductKey → TypeIdBase × (Text × (Text × Text))
members k = (k.type_id, (k.module_label, (k.product_instance_name, k.process_name)))

pub cmp_product_key-eq_iff : (a b : ProductKey) → (cmp_product_key a b ≡ eq) ↔ (a ≡ b)
cmp_product_key-eq_iff a b =
    let (to, from) = cmp_pair-eq_iff (members a) (members b) in
    ((λ h. let e = to h in cc), (λ e. from (ap members e)))

pub cmp_product_key-gt : (a b : ProductKey) → cmp_product_key a b ≡ gt → cmp_product_key b a ≡ lt
cmp_product_key-gt a b = cmp_pair-gt (members a) (members b)

pub cmp_product_key_trans :
    (a b c : ProductKey)
    → cmp_product_key a b ≡ lt
    → cmp_product_key b c ≡ lt
    → cmp_product_key a c ≡ lt
cmp_product_key_trans a b c = cmp_pair_trans (members a) (members b) (members c)

instance abbrev pub product_key_ord : Ord ProductKey
product_key_ord = record {
  cmp = cmp_product_key;
  cmp-eq_iff = cmp_product_key-eq_iff;
  cmp-gt = cmp_product_key-gt;
  cmp-trans = cmp_product_key_trans;
}

pub cmp_transition_record_key-eq_iff :
    (a b : TransitionRecordKey) → (cmp_transition_record_key a b ≡ eq) ↔ (a ≡ b)
cmp_transition_record_key-eq_iff a b = ground (arith, cmp_type_id-eq_iff a.type_id b.type_id)

pub cmp_transition_record_key-gt :
    (a b : TransitionRecordKey)
    → cmp_transition_record_key a b ≡ gt
    → cmp_transition_record_key b a ≡ lt
cmp_transition_record_key-gt a b = cmp_type_id-gt a.type_id b.type_id

pub cmp_transition_record_key_trans :
    (a b c : TransitionRecordKey)
    → cmp_transition_record_key a b ≡ lt
    → cmp_transition_record_key b c ≡ lt
    → cmp_transition_record_key a c ≡ lt
cmp_transition_record_key_trans a b c = cmp_type_id_trans a.type_id b.type_id c.type_id

instance abbrev pub transition_record_key_ord : Ord TransitionRecordKey
transition_record_key_ord = record {
  cmp = cmp_transition_record_key;
  cmp-eq_iff = cmp_transition_record_key-eq_iff;
  cmp-gt = cmp_transition_record_key-gt;
  cmp-trans = cmp_transition_record_key_trans;
}
