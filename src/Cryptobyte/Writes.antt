-- ===== src/Cryptobyte/Writes.antt =====
-- What a piece of builder code appends, as an ASN.1 expression: `Writes f d` says that `f` appends
-- `d`, and the rules build such facts along the code.
use est.Common.{◌≡◌, refl, ◌∙◌, ap, [], ◌++◌, append-nil, append_assoc, none, some, Bytes, arith}
use est.Common.{ℤ, Bool, ObjectIdentifier, Error}
use est.Cryptobyte.{Cryptobyte, IsLawful, Der, ◌<+>◌, then_encode, written}

pub <+>_assoc : (d e f : Der) → (d <+> e) <+> f ≡ d <+> (e <+> f)
<+>_assoc none e f = refl
<+>_assoc (some x) none f = refl
<+>_assoc (some x) (some y) none = refl
<+>_assoc (some x) (some y) (some z) = ap some (append_assoc x y z)

pub <+>-nil : (d : Der) → d <+> some [] ≡ d
<+>-nil none = refl
<+>-nil (some x) = ap some (append-nil x)

pub nil-<+> : (d : Der) → some [] <+> d ≡ d
nil-<+> none = refl
nil-<+> (some x) = refl

pub <+>-none : (d : Der) → d <+> none ≡ none
<+>-none none = refl
<+>-none (some x) = refl

pub <+>-eq-some :
    (d e : Der) {s : Bytes}
    → d <+> e ≡ some s
    → (x y : Bytes) × (d ≡ some x) × (e ≡ some y) × (s ≡ x ++ y)
<+>-eq-some none e h = cc
<+>-eq-some (some x) none h = cc
<+>-eq-some (some x) (some y) h = (x, y, refl, refl, ground arith)

pub then_encode-eq-some :
    (d : Der) (f : Bytes → Der) {s : Bytes}
    → then_encode d f ≡ some s
    → (x : Bytes) × (d ≡ some x) × (f x ≡ some s)
then_encode-eq-some none f h = cc
then_encode-eq-some (some x) f h = (x, refl, h)

module _ {C : Cryptobyte} (L : IsLawful C) where
  abbrev pub node : C.Tag → Der → Der
  node t d = then_encode d (L.element t)

  pub record Writes (f : C.Builder → C.Builder) (d : Der) : Type 0 where
    pub apply : (b : C.Builder) → written C (f b) ≡ written C b <+> d

  pub Writes-empty : (f : C.Builder → C.Builder) {d : Der} → Writes f d → written C (f C.empty) ≡ d
  Writes-empty f {d} h = h.apply C.empty ∙ rw L.written-empty (nil-<+> d)

  pub Writes-id : Writes (λ b. b) (some [])
  Writes-id = record { apply = λ b. rw <+>-nil }

  pub Writes-seq :
      (f g : C.Builder → C.Builder) {d e : Der}
      → Writes f d
      → Writes g e
      → Writes (λ b. g (f b)) (d <+> e)
  Writes-seq f g {d} {e} hf hg = record {
    apply = λ b. hg.apply (f b) ∙ ap (λ x. x <+> e) (hf.apply b) ∙ <+>_assoc (written C b) d e;
  }

  pub Writes-add_bytes : (v : Bytes) → Writes (λ b. C.add_bytes b v) (some v)
  Writes-add_bytes v = record { apply = λ b. L.written-add_bytes b v }

  pub Writes-add_asn1 :
      (t : C.Tag) (f : C.Builder → C.Builder) {d : Der}
      → Writes f d
      → Writes (λ b. C.add_asn1 b t f) (node t d)
  Writes-add_asn1 t f h = record {
    apply = λ b.
        L.written-add_asn1 b t f
        ∙ ap (λ x. written C b <+> then_encode x (L.element t)) (Writes-empty f h);
  }

  pub Writes-add_asn1_object_identifier :
      (o : ObjectIdentifier) → Writes (λ b. C.add_asn1_object_identifier b o) (L.oid_element o)
  Writes-add_asn1_object_identifier o = record {
    apply = λ b. L.written-add_asn1_object_identifier b o;
  }

  pub Writes-add_asn1_int64 :
      (n : ℤ) → Writes (λ b. C.add_asn1_int64 b n) (some (L.int64_element n))
  Writes-add_asn1_int64 n = record { apply = λ b. L.written-add_asn1_int64 b n }

  pub Writes-add_asn1_boolean :
      (v : Bool) → Writes (λ b. C.add_asn1_boolean b v) (some (L.boolean_element v))
  Writes-add_asn1_boolean v = record { apply = λ b. L.written-add_asn1_boolean b v }

  pub Writes-add_asn1_octet_string :
      (v : Bytes) → Writes (λ b. C.add_asn1_octet_string b v) (L.octet_string_element v)
  Writes-add_asn1_octet_string v = record { apply = λ b. L.written-add_asn1_octet_string b v }

  pub Writes-set_error : (e : Error) → Writes (λ b. C.set_error b e) none
  Writes-set_error e = record { apply = λ b. L.written-set_error b e ∙ rw <+>-none }
