-- ===== src/Frontend/Lexer/Keywords.antt =====
-- src/frontend/lexer.c, `classify_ident` against its table.
use o.Prelude.{
  ◌≡◌, refl, sym, ◌⊎◌, inl, inr, Bool, true, false, not, ◌&&◌, ==_iff, arith, List, [], ◌∷◌,
  Bool-cases,
}
use mathlib.Core.Path.{subst, ap₂}
use o.Frontend.Types.{StrView, sv_eq}
use o.Frontend.ScopeMap.{sv_eq_sound, and_left, and_right}
use o.Frontend.Lexer.{TokKind, tok_ident, keywords, classify_in, classify_ident}

-- A name stands in the table with this kind.
abbrev pub Listed : StrView → TokKind → List (StrView × TokKind) → Type 0
Listed name kind [] = ⊥
Listed name kind ((kw, k) ∷ ks) = ((kw ≡ name) × (k ≡ kind)) ⊎ Listed name kind ks

classify_in-Listed :
    (ks : List (StrView × TokKind)) (name : StrView)
    → (classify_in ks name ≡ tok_ident) ⊎ Listed name (classify_in ks name) ks
unfolding classify_in
classify_in-Listed [] name = inl refl
classify_in-Listed ((kw, k) ∷ ks) name = elim (Bool-cases (sv_eq kw name)) [
  | inl e ↦ inr (inl (sv_eq_sound kw name e, rw e refl))
  | inr e ↦
      subst (λ t. (t ≡ tok_ident) ⊎ Listed name t ((kw, k) ∷ ks)) (sym (skipped e))
        (elim (classify_in-Listed ks name) [ inl i ↦ inl i | inr m ↦ inr (inr m) ])
]
  where
    skipped : sv_eq kw name ≡ false → classify_in ((kw, k) ∷ ks) name ≡ classify_in ks name
    skipped e = rw e refl

sv_eq-same : (s : StrView) → sv_eq s s ≡ true
unfolding sv_eq
sv_eq-same [] = refl
sv_eq-same (c ∷ cs) = ap₂ ◌&&◌ ((==_iff c c).1 refl) (sv_eq-same cs)

-- No entry of the table has the word, and no two entries have the same word.
abbrev absent : StrView → List (StrView × TokKind) → Bool
absent kw [] = true
absent kw ((other, _) ∷ ks) = not (sv_eq kw other) && absent kw ks

abbrev distinct : List (StrView × TokKind) → Bool
distinct [] = true
distinct ((kw, _) ∷ ks) = absent kw ks && distinct ks

keywords-distinct : distinct keywords ≡ true
unfolding sv_eq
keywords-distinct = refl

absent-Listed :
    (kw name : StrView) (kind : TokKind) (ks : List (StrView × TokKind))
    → absent kw ks ≡ true
    → Listed name kind ks
    → sv_eq kw name ≡ false
absent-Listed kw name kind [] h m = elim m [ ]
absent-Listed kw name kind ((other, _) ∷ ks) h (inl (same, _)) =
    subst (λ w. sv_eq kw w ≡ false) same (differs (sv_eq kw other) (absent kw ks) h)
  where
    differs : (b c : Bool) → not b && c ≡ true → b ≡ false
    differs b c e = ground arith
absent-Listed kw name kind ((other, _) ∷ ks) h (inr m) =
    absent-Listed kw name kind ks (and_right (not (sv_eq kw other)) (absent kw ks) h) m

Listed-classify_in :
    (ks : List (StrView × TokKind)) (name : StrView) (kind : TokKind)
    → distinct ks ≡ true
    → Listed name kind ks
    → classify_in ks name ≡ kind
unfolding classify_in
Listed-classify_in [] name kind d m = elim m [ ]
Listed-classify_in ((kw, k) ∷ ks) name kind d (inl (same, at)) =
    subst (λ w. classify_in ((kw, k) ∷ ks) w ≡ kind) same (rw (sv_eq-same kw) at)
Listed-classify_in ((kw, k) ∷ ks) name kind d (inr m) =
    rw (absent-Listed kw name kind ks (and_left (absent kw ks) (distinct ks) d) m)
      (Listed-classify_in ks name kind (and_right (absent kw ks) (distinct ks) d) m)

-- A word that stands in the table of keywords with a kind gets that kind, and a word that does not
-- stand there is an identifier.
pub classify_ident-Listed :
    (name : StrView)
    → ((kind : TokKind) → Listed name kind keywords → classify_ident name ≡ kind)
      × (((kind : TokKind) → ¬ (Listed name kind keywords)) → classify_ident name ≡ tok_ident)
unfolding classify_ident
classify_ident-Listed name = (
  (λ kind m. Listed-classify_in keywords name kind keywords-distinct m),
  (λ none. elim (classify_in-Listed keywords name) [
    | inl e ↦ e
    | inr m ↦ absurd (none (classify_in keywords name) m)
  ]),
)
