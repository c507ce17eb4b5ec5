-- ===== src/Actions/Secrets.antt =====
-- What _format_args gives of a call does not depend on the secrets among its arguments.
use freedom_box.Base.{
  String, ◌≡◌, ◌⊎◌, inl, inr, refl, sym, ap, subst, ◌∙◌, true, Bool-cases, ◌&&◌, not, Option,
  Option-cases, none, some, some-injective, List, [], ◌∷◌, ◌==◌, arith, eq_iff,
}
use freedom_box.Dict.{Dict}
use freedom_box.Actions.Values.{Value, Annotation}
use freedom_box.Actions.Check.{Parameter, ArgSpec, annotation_of}
use freedom_box.Actions.Log.{
  is_sensitive, is_secret, Signature, check_parameters, check_signature, add_parameter, shown,
  show_keyword, format_keywords, format_positional, format_args,
}

-- Each parameter whose name tells a secret is of the secret type.
abbrev AreMarked : List Parameter → Type 0
AreMarked [] = Unit
AreMarked (p ∷ ps) = (is_sensitive p.name ≡ true → is_secret p.annotation ≡ true) × AreMarked ps

-- The values are the same, but for those of parameters whose names tell a secret.
abbrev pub SamePositional : List Parameter → List Value → List Value → Type 0
SamePositional ps [] [] = Unit
SamePositional ps [] (w ∷ ws) = ⊥
SamePositional ps (v ∷ vs) [] = ⊥
SamePositional [] (v ∷ vs) (w ∷ ws) = (v ≡ w) × SamePositional [] vs ws
SamePositional (p ∷ ps) (v ∷ vs) (w ∷ ws) =
    ((is_sensitive p.name ≡ true) ⊎ (v ≡ w)) × SamePositional ps vs ws

abbrev pub SameKeywords : Dict Value → Dict Value → Type 0
SameKeywords [] [] = Unit
SameKeywords [] (e ∷ es) = ⊥
SameKeywords (d ∷ ds) [] = ⊥
SameKeywords ((j, v) ∷ ds) ((k, w) ∷ es) =
    (j ≡ k) × ((is_sensitive j ≡ true) ⊎ (v ≡ w)) × SameKeywords ds es

AreMarked-add_parameter :
    (name : String) (a : Annotation) (o : Option (List Parameter)) (ps : List Parameter)
    → ((qs : List Parameter) → o ≡ some qs → AreMarked qs)
    → add_parameter name a o ≡ some ps
    → AreMarked ps
AreMarked-add_parameter name a none ps h e = absurd (ground arith)
AreMarked-add_parameter name a (some qs) ps h e =
    elim (Bool-cases (is_sensitive name && not (is_secret a))) [
      | inl bad ↦ absurd (ground arith)
      | inr good ↦
          subst AreMarked
            (some-injective (record { name = name; annotation = a } ∷ qs) ps (rw good at e))
            ((λ sensitive. ground arith), h qs refl)
    ]

AreMarked-check_parameters :
    (l : List (String × Option Annotation)) (ps : List Parameter)
    → check_parameters l ≡ some ps
    → AreMarked ps
unfolding check_parameters
AreMarked-check_parameters [] ps e = subst AreMarked (some-injective [] ps e) tt
AreMarked-check_parameters ((name, none) ∷ l) ps e = absurd (ground arith)
AreMarked-check_parameters ((name, some a) ∷ l) ps e =
    AreMarked-add_parameter name a (check_parameters l) ps (AreMarked-check_parameters l) e

module _ (dumps : Value → String) where
  shown_same :
      (a : Annotation) (v w : Value)
      → (is_secret a ≡ true) ⊎ (v ≡ w)
      → shown dumps a v ≡ shown dumps a w
  shown_same a v w (inl secret) = rw secret refl
  shown_same a v w (inr same) = ap (shown dumps a) same

  secret_or_same :
      (p : Parameter) (v w : Value)
      → (is_sensitive p.name ≡ true → is_secret p.annotation ≡ true)
      → (is_sensitive p.name ≡ true) ⊎ (v ≡ w)
      → (is_secret p.annotation ≡ true) ⊎ (v ≡ w)
  secret_or_same p v w marked (inl sensitive) = inl (marked sensitive)
  secret_or_same p v w marked (inr same) = inr same

  format_positional_same :
      (ps : List Parameter) (vs ws : List Value) (l m : Option (List String))
      → AreMarked ps
      → SamePositional ps vs ws
      → l ≡ m
      → format_positional dumps ps vs l ≡ format_positional dumps ps ws m
  unfolding format_positional
  format_positional_same ps [] [] l m marked same e = e
  format_positional_same ps [] (w ∷ ws) l m marked same e = elim same [ ]
  format_positional_same ps (v ∷ vs) [] l m marked same e = elim same [ ]
  format_positional_same [] (v ∷ vs) (w ∷ ws) l m marked same e = refl
  format_positional_same (p ∷ ps) (v ∷ vs) (w ∷ ws) l m marked same e =
      let one = shown_same p.annotation v w (secret_or_same p v w marked.0 same.0) in
      let rest = format_positional_same ps vs ws l m marked.1 same.1 e in cc (one, rest)

  -- The annotation of a name that tells a secret is the secret type.
  annotation-is_secret :
      (ps : List Parameter) (k : String) (a : Annotation)
      → AreMarked ps
      → annotation_of k ps ≡ some a
      → is_sensitive k ≡ true
      → is_secret a ≡ true
  annotation-is_secret [] k a marked e h = absurd (ground arith)
  annotation-is_secret (p ∷ ps) k a marked e h = elim (Bool-cases (p.name == k)) [
    | inl here ↦
        let same = some-injective p.annotation a (rw here at e) in
        subst (λ x. is_secret x ≡ true) same
          (marked.0 (subst (λ x. is_sensitive x ≡ true) (sym ((eq_iff p.name k).0 here)) h))
    | inr there ↦ annotation-is_secret ps k a marked.1 (rw there at e) h
  ]

  show_keyword_same :
      (k : String) (o : Option Annotation) (v w : Value) (l m : Option (List String))
      → ((a : Annotation) → o ≡ some a → (is_secret a ≡ true) ⊎ (v ≡ w))
      → l ≡ m
      → show_keyword dumps k o v l ≡ show_keyword dumps k o w m
  show_keyword_same k none v w l m same e = refl
  show_keyword_same k (some a) v w l m same e =
      let one = shown_same a v w (same a refl) in cc (one, e)

  format_keywords_same :
      (ps : List Parameter) (ds es : Dict Value)
      → AreMarked ps
      → SameKeywords ds es
      → format_keywords dumps ps ds ≡ format_keywords dumps ps es
  unfolding format_keywords
  format_keywords_same ps [] [] marked same = refl
  format_keywords_same ps [] (e ∷ es) marked same = elim same [ ]
  format_keywords_same ps (d ∷ ds) [] marked same = elim same [ ]
  format_keywords_same ps ((j, v) ∷ ds) ((k, w) ∷ es) marked same =
      show_keyword_same j (annotation_of j ps) v w _ _
        (λ a e. elim same.1 [
          | inl sensitive ↦ inl (annotation-is_secret ps j a marked e sensitive)
          | inr equal ↦ inr equal
        ])
        (format_keywords_same ps ds es marked same.2)
      ∙ ap (λ x. show_keyword dumps x (annotation_of x ps) w (format_keywords dumps ps es)) same.0

AreMarked-check_signature :
    (s : Signature) (spec : ArgSpec) → check_signature s ≡ some spec → AreMarked spec.args
unfolding check_signature
AreMarked-check_signature s spec e = elim (Option-cases (check_parameters s.parameters)) [
  | inl refused ↦ absurd (ground arith)
  | inr (ps, accepted) ↦
      let here : some (record { args = ps; defaults = s.defaults }) ≡ some spec = ground arith in
      subst (λ x. AreMarked x.args)
        (some-injective (record { args = ps; defaults = s.defaults }) spec here)
        (AreMarked-check_parameters s.parameters ps accepted)
]

-- For a function that the decorator accepts, the text that _format_args gives for the arguments is the
-- same for any two calls whose arguments differ only in those that a name with `password`, `passphrase`
-- or `secret` tells to be secret.
pub format_args_hides :
    (dumps : Value → String) (s : Signature) (spec : ArgSpec) (vs ws : List Value)
    (ds es : Dict Value)
    → check_signature s ≡ some spec
    → SamePositional spec.args vs ws
    → SameKeywords ds es
    → format_args dumps spec vs ds ≡ format_args dumps spec ws es
unfolding format_args
format_args_hides dumps s spec vs ws ds es accepted same keywords =
    let marked = AreMarked-check_signature s spec accepted in
    format_positional_same dumps spec.args vs ws _ _ marked same
      (format_keywords_same dumps spec.args ds es marked keywords)
