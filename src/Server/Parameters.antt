-- ===== src/Server/Parameters.antt =====
-- The two readers of a parameter: that of the tool `query` in tools.rs, with the conversion that
-- follows it, and that of the core in protocol.rs.
use pg_mcp.Prelude.{
  ℕ, String, if◌then◌else◌, Option, List, [], ◌∷◌, any, str_eq, Result, ok, err, ◌>>=◌, ◌>>◌, ◌≡◌,
  refl, arith, Option-cases, Bool-cases, inl, inr,
}
use pg_mcp.Protocol.Json.{
  Value, number, pos_int, string, bool, array, null, object, Fields, end, field, get,
}
use pg_mcp.Protocol.Json.Derive.{
  Read, Malformed, malformed, read_string, nullable, struct_fields, only_keys, member,
}
use pg_mcp.Protocol.Errors.Wire.{require_keys, allow_keys, decode_value, invalid_field}
use pg_mcp.Protocol.Status.{Check}
use pg_mcp.Protocol.Request.{Parameter, validate_parameter, new_parameter}
use pg_mcp.Protocol.Request.Wire.{read_u32, custom, read_parameter}
use pg_mcp.Server.Tools.{ParameterArg, read_parameter_arg, read_oid, read_text}

-- `Parameter::try_from` after the reader of the tool.
abbrev pub read_by_tool : Read Parameter
read_by_tool v = read_parameter_arg v >>= λ p. custom (new_parameter p.type_oid p.value)

relabelled :
    {A : Type 0} (key : String) (r : Result A Malformed)
    → custom (elim r [ err _ ↦ err (invalid_field key) | ok a ↦ ok a ]) ≡ r
relabelled key (ok a) = refl
relabelled key (err malformed) = refl

abbrev known_keys : List String
known_keys = "type_oid" ∷ "value" ∷ []

allow_keys-only_keys :
    (names : List String) (fs : Fields)
    → custom (allow_keys names fs) ≡ (if only_keys names fs then ok tt else err malformed)
unfolding allow_keys
allow_keys-only_keys names end = refl
allow_keys-only_keys names (field k v fs) = elim (Bool-cases (any (str_eq k) names)) [
  | inl e ↦ rw e (allow_keys-only_keys names fs)
  | inr e ↦ rw e refl
]

decode_value-member :
    {A : Type 0} (read : Read A) (fs : Fields) (key : String)
    → custom (decode_value read fs key) ≡ member read key fs
unfolding decode_value
decode_value-member read fs key = elim (Option-cases (get key fs)) [
  | inl e ↦ rw (e, decode_value, member) refl
  | inr (v, e) ↦ rw (e, decode_value, member) (relabelled key (read v))
]

-- The number of a type, and a text, are read alike.
oid_alike : (v : Value) → nullable read_u32 v ≡ read_oid v
oid_alike null = refl
oid_alike (number (pos_int n)) = ground arith
oid_alike v = ground arith

custom_after : (r : Check) (p : Parameter) → (custom r >> ok p) ≡ custom (r >>= λ _. ok p)
custom_after (ok a) p = refl
custom_after (err e) p = refl

converted_alike :
    (o : Option ℕ) (v : Option String)
    → (let p : Parameter = record { type_oid = o; value = v } in
        (custom (validate_parameter p) >> ok p) ≡ custom (new_parameter o v))
unfolding new_parameter
converted_alike o v =
    let p : Parameter = record { type_oid = o; value = v } in custom_after (validate_parameter p) p

text_alike : (v : Value) → nullable read_string v ≡ read_text v
text_alike null = refl
text_alike (string s) = refl
text_alike (bool b) = refl
text_alike (number n) = refl
text_alike (array vs) = refl
text_alike (object fs) = refl

fails_anyway :
    {A B : Type 0} (r : Result A Malformed)
    → (r >>= λ _. err malformed) ≡ (let x : Result B Malformed = err malformed in x)
fails_anyway (ok a) = refl
fails_anyway (err malformed) = refl

-- What the tool makes of its two fields.
abbrev from_fields :
    Result (Option ℕ) Malformed → Result (Option String) Malformed → Result Parameter Malformed
from_fields oid text =
    (oid >>= λ o. text >>= λ v. ok (let p : ParameterArg = record { type_oid = o; value = v } in p))
    >>= λ p. custom (new_parameter p.type_oid p.value)

from_no_text : (r : Result (Option ℕ) Malformed) → err malformed ≡ from_fields r (err malformed)
from_no_text (ok o) = refl
from_no_text (err malformed) = refl

from_both :
    (oid : Result (Option ℕ) Malformed) (text : Result (Option String) Malformed)
    → (oid >>= λ o. text >>= λ v.
        let p : Parameter = record { type_oid = o; value = v } in
        custom (validate_parameter p) >> ok p)
      ≡ from_fields oid text
from_both (ok o) (ok v) = converted_alike o v
from_both (ok o) (err malformed) = refl
from_both (err malformed) text = refl

-- On an object both read the same parameter, or both refuse it.
pub read_parameter-eq-read_by_tool :
    (fs : Fields) → read_parameter (object fs) ≡ read_by_tool (object fs)
unfolding read_parameter read_parameter_arg require_keys decode_value new_parameter
read_parameter-eq-read_by_tool fs =
    rw
      (
        allow_keys-only_keys known_keys fs,
        decode_value-member (nullable read_u32) fs "type_oid",
        decode_value-member (nullable read_string) fs "value",
      )
      (elim (Bool-cases (only_keys known_keys fs)) [
        | inr unknown ↦
            rw (unknown, struct_fields) (fails_anyway (custom (require_keys known_keys fs)))
        | inl fine ↦ elim (Option-cases (get "type_oid" fs)) [
          | inl missing ↦ rw (fine, missing, member, struct_fields) refl
          | inr (v, there) ↦ elim (Option-cases (get "value" fs)) [
            | inl missing ↦
                rw (fine, there, missing, member, struct_fields) (from_no_text (read_oid v))
            | inr (w, also) ↦
                rw (fine, there, also, member, struct_fields)
                  (rw (oid_alike v, text_alike w) (from_both (read_oid v) (read_text w)))
          ]
        ]
      ])
