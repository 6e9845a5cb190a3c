-- ===== src/Signatures/Fields.antt =====
-- The fields of the header of backend/ledgerloop/webhooks/signatures.py that verify_stripe gathers.
use ledger_loop.Prelude.{
  ◌≡◌, refl, ap, ◌∙◌, subst, inl, inr, String, true, some, List, [], ◌∷◌, ◌++◌, Bool-cases, In,
  In-append,
}
use mathlib.Core.Option.{some-injective}
use ledger_loop.Text.{Text, codes, text_eq, strip, partition}
use ledger_loop.Signatures.{Parsed, take_field, read_parts}
use ledger_loop.Signatures.Texts.{text_eq→eq, partition-found}

-- A part of the header, with the spaces around it taken off, is `key=value`.
pub record Field (key : String) (value : Text) (parts : List Text) : Type 0 where
  pub part : Text
  pub there : In part parts
  pub reads : strip part ≡ codes key ++ b'=' ∷ value

-- What the loop has gathered stands in the header.
pub record From (parts : List Text) (parsed : Parsed) : Type 0 where
  pub time : (t : Text) → parsed.0 ≡ some t → Field "t" t parts
  pub sign : (c : Text) → In c parsed.1 → Field "v1" c parts

field_of :
    (key : String) (part : Text) (parts : List Text)
    → In part parts
    → (partition b'=' (strip part)).1 ≡ true
    → text_eq (partition b'=' (strip part)).0 (codes key) ≡ true
    → Field key (partition b'=' (strip part)).2 parts
field_of key part parts h found named = record {
  part = part;
  there = h;
  reads =
      partition-found b'=' (strip part) found
      ∙ ap (λ k. k ++ b'=' ∷ (partition b'=' (strip part)).2)
          (text_eq→eq (partition b'=' (strip part)).0 (codes key) named);
}

take_field-From :
    (parts : List Text) (part : Text) (parsed : Parsed)
    → In part parts
    → From parts parsed
    → From parts (take_field (partition b'=' (strip part)) parsed)
take_field-From parts part parsed h f = elim (Bool-cases (partition b'=' (strip part)).1) [
  | inr e ↦ rw (take_field, e) f
  | inl e ↦ elim (Bool-cases (text_eq (partition b'=' (strip part)).0 (codes "t"))) [
    | inl q ↦
        rw (take_field, e, q)
          (record {
            time = λ t k.
                subst (λ v. Field "t" v parts) (some-injective _ _ k)
                  (field_of "t" part parts h e q);
            sign = f.sign;
          })
    | inr q ↦ elim (Bool-cases (text_eq (partition b'=' (strip part)).0 (codes "v1"))) [
      | inl r ↦
          rw (take_field, e, q, r)
            (record {
              time = f.time;
              sign = λ c m. elim (In-append c parsed.1 ((partition b'=' (strip part)).2 ∷ []) m) [
                | inl old ↦ f.sign c old
                | inr (inl same) ↦
                    subst (λ v. Field "v1" v parts) same (field_of "v1" part parts h e r)
                | inr (inr n) ↦ elim n [ ]
              ];
            })
      | inr r ↦ rw (take_field, e, q, r) f
    ]
  ]
]

pub read_parts-From :
    (all ps : List Text) (parsed : Parsed)
    → ((p : Text) → In p ps → In p all)
    → From all parsed
    → From all (read_parts ps parsed)
unfolding read_parts
read_parts-From all [] parsed sub f = f
read_parts-From all (p ∷ ps) parsed sub f =
    read_parts-From all ps (take_field (partition b'=' (strip p)) parsed) (λ x m. sub x (inr m))
      (take_field-From all p parsed (sub p (inl refl)) f)
