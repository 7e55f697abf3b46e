-- ===== src/Machine/Abort/Taxonomy.antt =====
-- The lookups of scripts/validate_session_state_machine.py in the failure taxonomy.
use private_match_protocol.Prelude.{
  String, ◌≡◌, refl, inl, inr, true, false, Option, none, some, List, [], ◌∷◌, ◌++◌, arith, eq_iff,
  Bool-cases, if◌then◌else◌, any, str_eq, ap, ◌∙◌,
}
use private_match_protocol.Machine.Abort.{Failure, last_with, party_error_category}

-- No entry has the code.
abbrev pub Unused : String → List Failure → Type 0
Unused code fs = any fs (λ (f : Failure). str_eq f.code code) ≡ false

-- The last entry of the taxonomy with the code: the one by which the code aborts.
pub record LastWith (taxonomy : List Failure) (code : String) : Type 0 where
  pub before : List Failure
  pub failure : Failure
  pub after : List Failure
  pub split : taxonomy ≡ before ++ failure ∷ after
  pub coded : failure.code ≡ code
  pub last : Unused code after

-- The categories that a Party may be shown.
abbrev pub reviewed_categories : List String
reviewed_categories =
    "BINDING_ERROR" ∷ "VERSION_ERROR" ∷ "REPLAY_ERROR" ∷ "ORDERING_ERROR" ∷ "COMMITMENT_ERROR"
    ∷ "AUTHORIZATION_ERROR" ∷ "VERIFICATION_ERROR" ∷ "EVALUATION_ERROR" ∷ "RESULT_ERROR"
    ∷ "CONSENT_ERROR" ∷ "DISCLOSURE_ERROR" ∷ "SESSION_UNAVAILABLE" ∷ "UNSUPPORTED" ∷ "CLOCK_ERROR"
    ∷ []

-- The Party category of the first entry with the code, where it is one of the reviewed categories.
pub data Category (code : String) : List Failure → Option String → Type 0 where
  undeclared : Category code [] none
  reviewed :
      {f : Failure} {fs : List Failure} {o : Option String}
      → f.code ≡ code
      → any reviewed_categories (str_eq f.party_error_category) ≡ true
      → o ≡ some f.party_error_category
      → Category code (f ∷ fs) o
  unreviewed :
      {f : Failure} {fs : List Failure}
      → f.code ≡ code
      → any reviewed_categories (str_eq f.party_error_category) ≡ false
      → Category code (f ∷ fs) none
  later :
      {f : Failure} {fs : List Failure} {o : Option String}
      → str_eq f.code code ≡ false
      → Category code fs o
      → Category code (f ∷ fs) o

pub category_lem :
    (taxonomy : List Failure) (code : String)
    → Category code taxonomy (party_error_category taxonomy code)
unfolding party_error_category
category_lem [] code = undeclared
category_lem (f ∷ fs) code = elim (Bool-cases (str_eq f.code code)) [
  | inl same ↦ elim (Bool-cases (any reviewed_categories (str_eq f.party_error_category))) [
    | inl known ↦ reviewed ((eq_iff _ _).0 same) known (rw (same, known) refl)
    | inr other ↦ (rw (same, other) (unreviewed ((eq_iff _ _).0 same) other))
  ]
  | inr other ↦ later other (rw other (category_lem fs code))
]

-- The lookup finds nothing exactly where the code is unused, and else the last entry with it.
Unused-last_with : (fs : List Failure) (code : String) → Unused code fs → last_with fs code ≡ none
unfolding last_with
Unused-last_with [] code e = refl
Unused-last_with (f ∷ fs) code e = ground (arith, Unused-last_with fs code)

last_with-Unused : (fs : List Failure) (code : String) → last_with fs code ≡ none → Unused code fs
unfolding last_with
last_with-Unused [] code e = refl
last_with-Unused (f ∷ fs) code e = ground (arith, last_with-Unused fs code)

pub last_with_lem :
    (before : List Failure) (f : Failure) (after : List Failure) (code : String)
    → f.code ≡ code
    → Unused code after
    → last_with (before ++ f ∷ after) code ≡ some f
unfolding last_with
last_with_lem [] f after code same unused =
    rw (Unused-last_with after code unused, (eq_iff f.code code).1 same) refl
last_with_lem (g ∷ before) f after code same unused =
    rw (last_with_lem before f after code same unused) refl

pub last_with-LastWith :
    (fs : List Failure) (code : String) (f : Failure)
    → last_with fs code ≡ some f
    → (l : LastWith fs code) × (l.failure ≡ f)
unfolding last_with
last_with-LastWith [] code f e = absurd (ground arith)
last_with-LastWith (g ∷ fs) code f e =
    split_on (last_with fs code) (λ x. last_with-LastWith fs code x) refl e
  where
    split_on :
        (w : Option Failure)
        → ((x : Failure) → last_with fs code ≡ some x → (l : LastWith fs code) × (l.failure ≡ x))
        → last_with fs code ≡ w
        → (elim w [ some x ↦ some x | none ↦ if str_eq g.code code then some g else none ]) ≡ some f
        → (l : LastWith (g ∷ fs) code) × (l.failure ≡ f)
    split_on (some x) earlier same run =
        let (l, kept) = earlier x same in
        (
          record {
            before = g ∷ l.before;
            failure = l.failure;
            after = l.after;
            split = ap (λ xs. g ∷ xs) l.split;
            coded = l.coded;
            last = l.last;
          },
          kept ∙ ground arith,
        )
    split_on none earlier same run = elim (Bool-cases (str_eq g.code code)) [
      | inl here ↦ (
        record {
          before = [];
          failure = g;
          after = fs;
          split = refl;
          coded = (eq_iff _ _).0 here;
          last = last_with-Unused fs code same;
        },
        (let run' = rw here at run in ground arith),
      )
      | inr other ↦ absurd (let run' = rw other at run in ground arith)
    ]
