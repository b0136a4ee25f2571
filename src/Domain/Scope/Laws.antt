-- ===== src/Domain/Scope/Laws.antt =====
-- The index loop of splitFields against a plain split, and the scopes that are accepted.
use kde_auth.Prelude.{
  ℕ, ◌+◌, ◌-◌, Bool, true, false, ◌&&◌, ◌||◌, List, [], ◌∷◌, ◌++◌, ◌≡◌, refl, sym, ◌∙◌, ap, length,
  arith, Bool-cases, inl, inr, if◌then◌else◌, exists,
}
use kde_auth.Domain.Errors.{is_ok}
use kde_auth.Domain.Scope.{
  eqb, bytes_eq, take, drop, slice, add_part, split_fields_from, split_fields, scan_parts,
  require_openid, parse_scope, scope_openid, scope_email, scope_offline_access,
}

-- The field read so far, if there is one, in front of the others.
abbrev flush : List ℕ → List (List ℕ) → List (List ℕ)
flush [] fs = fs
flush (c ∷ cs) fs = (c ∷ cs) ∷ fs

-- The fields of a text: the longest runs without a space, `cur` being read.
abbrev pub fields_from : List ℕ → List ℕ → List (List ℕ)
fields_from cur [] = flush cur []
fields_from cur (c ∷ s) =
    if eqb c b' ' then flush cur (fields_from [] s) else fields_from (cur ++ c ∷ []) s

abbrev pub fields : List ℕ → List (List ℕ)
fields s = fields_from [] s

length-append : (s t : List ℕ) → length (s ++ t) ≡ length s + length t
length-append [] t = omega arith
length-append (c ∷ s) t = ground (arith, length-append s t)

append_assoc : (s t u : List ℕ) → (s ++ t) ++ u ≡ s ++ (t ++ u)
append_assoc [] t u = refl
append_assoc (c ∷ s) t u = ap (λ r. c ∷ r) (append_assoc s t u)

parts_assoc : (s t u : List (List ℕ)) → (s ++ t) ++ u ≡ s ++ (t ++ u)
parts_assoc [] t u = refl
parts_assoc (c ∷ s) t u = ap (λ r. c ∷ r) (parts_assoc s t u)

append-nil : (s : List (List ℕ)) → s ++ [] ≡ s
append-nil [] = refl
append-nil (c ∷ s) = ap (λ r. c ∷ r) (append-nil s)

drop-append : (s t : List ℕ) → drop (length s) (s ++ t) ≡ t
drop-append [] t = refl
drop-append (c ∷ s) t = drop-append s t

take-append : (s t : List ℕ) → take (length s) (s ++ t) ≡ s
take-append [] t = refl
take-append (c ∷ s) t = ap (λ r. c ∷ r) (take-append s t)

slice-middle :
    (pre cur rest : List ℕ)
    → slice (pre ++ (cur ++ rest)) (length pre) (length pre + length cur) ≡ cur
slice-middle pre cur rest =
    (λ i. take (cancel i) (drop-append pre (cur ++ rest) i)) ∙ take-append cur rest
  where
    cancel : length pre + length cur - length pre ≡ length cur
    cancel = omega arith

module _ (s pre cur rest : List ℕ) (start i : ℕ) where
  add_part_lem :
      (parts fs : List (List ℕ))
      → s ≡ pre ++ (cur ++ rest)
      → start ≡ length pre
      → i ≡ length pre + length cur
      → add_part s start i parts ++ fs ≡ parts ++ flush cur fs
  add_part_lem parts fs whole from upto =
      (λ k. add_part (whole k) (from k) (upto k) parts ++ fs) ∙ part cur
    where
      part :
          (cur : List ℕ)
          → add_part (pre ++ (cur ++ rest)) (length pre) (length pre + length cur) parts ++ fs
            ≡ parts ++ flush cur fs
      part [] = ground arith
      part (c ∷ cs) =
          ground (arith, slice-middle pre (c ∷ cs) rest, parts_assoc parts ((c ∷ cs) ∷ []) fs)

split_fields_from_lem :
    (s pre cur rest : List ℕ) (start i : ℕ) (parts : List (List ℕ))
    → s ≡ pre ++ (cur ++ rest)
    → start ≡ length pre
    → i ≡ length pre + length cur
    → split_fields_from s parts start i rest ≡ parts ++ fields_from cur rest
unfolding split_fields_from
split_fields_from_lem s pre cur [] start i parts whole from upto =
    sym (append-nil _) ∙ add_part_lem s pre cur [] start i parts [] whole from upto
split_fields_from_lem s pre cur (c ∷ rest) start i parts whole from upto =
    elim (Bool-cases (eqb c b' ')) [
      | inl blank ↦
          let reach : i + 1 ≡ length (pre ++ (cur ++ c ∷ [])) =
            omega (arith, upto, length-append pre (cur ++ c ∷ []), length-append cur (c ∷ [])) in
          let next =
            split_fields_from_lem s (pre ++ (cur ++ c ∷ [])) [] rest (i + 1) (i + 1)
              (add_part s start i parts)
              (whole
                ∙ sym (
                    append_assoc pre (cur ++ c ∷ []) rest
                    ∙ ap (λ (t : List ℕ). pre ++ t) (append_assoc cur (c ∷ []) rest)))
              reach (omega (arith, reach)) in
          let added =
            add_part_lem s pre cur (c ∷ rest) start i parts (fields_from [] rest) whole from upto in
          ground (arith, next, added)
      | inr full ↦
          let next =
            split_fields_from_lem s pre (cur ++ c ∷ []) rest start (i + 1) parts
              (whole ∙ sym (ap (λ (t : List ℕ). pre ++ t) (append_assoc cur (c ∷ []) rest))) from
              (omega (arith, upto, length-append cur (c ∷ []))) in
          ground (arith, next)
    ]

-- The index loop of `splitFields` computes the fields.
pub split_fields-fields : (s : List ℕ) → split_fields s ≡ fields s
unfolding split_fields
split_fields-fields s = split_fields_from_lem s [] [] s 0 0 [] refl refl (omega arith)

-- One of the three scopes.
abbrev pub is_known : List ℕ → Bool
is_known f = bytes_eq f scope_openid || bytes_eq f scope_email || bytes_eq f scope_offline_access

abbrev pub all_known : List (List ℕ) → Bool
all_known [] = true
all_known (f ∷ fs) = is_known f && all_known fs

abbrev pub has_openid : List (List ℕ) → Bool
has_openid = exists (λ f. bytes_eq f scope_openid)

scan_parts_lem :
    (b : Bool) (fs : List (List ℕ))
    → is_ok (require_openid (scan_parts b fs)) ≡ (all_known fs && (has_openid fs || b))
unfolding scan_parts require_openid
scan_parts_lem b [] = ground arith
scan_parts_lem b (f ∷ fs) = ground (arith, scan_parts_lem b fs, scan_parts_lem true fs)

and_or_false : (a b : Bool) → (a && (b || false)) ≡ (a && b)
and_or_false a true = refl
and_or_false a false = refl

split-accepted :
    (s : List ℕ)
    → is_ok (require_openid (scan_parts false (split_fields s)))
      ≡ (all_known (fields s) && has_openid (fields s))
split-accepted s =
    ap (λ (fs : List (List ℕ)). is_ok (require_openid (scan_parts false fs)))
      (split_fields-fields s)
    ∙ scan_parts_lem false (fields s)
    ∙ and_or_false (all_known (fields s)) (has_openid (fields s))

-- A scope is accepted exactly where each of its fields is openid, email or offline_access, and one
-- of them is openid; the fields are the longest runs of the text without a space.
pub parse_scope-fields :
    (s : List ℕ) → is_ok (parse_scope s) ≡ (all_known (fields s) && has_openid (fields s))
unfolding parse_scope
parse_scope-fields [] = refl
parse_scope-fields (c ∷ s) = split-accepted (c ∷ s)
