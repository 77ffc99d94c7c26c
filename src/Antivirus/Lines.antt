-- ===== src/Antivirus/Lines.antt =====
-- The replies that announce a verdict are those the parser reads as it.
use mathlib.Core.List.{append_assoc}
use legaltech_colombia.Prelude.{
  ℕ, ◌≤◌, Bool, true, false, Option, none, some, [], ◌∷◌, ◌++◌, ◌≡◌, refl, sym, ◌∙◌, ap, subst, ◌⊎◌,
  ◌↔◌, inl, inr, arith, ltb, length, length-append, take, drop, take-append-drop, Bool-cases, ◌-◌,
  &&-true, any, all,
}
use legaltech_colombia.Sanitize.Bytes.{equal_bytes, equal_bytes-eq, take-append, drop-append}
use legaltech_colombia.Antivirus.Reply.{
  is_signature_unit, Text, ScanVerdict, clean, infected, trim_nul, clean_line, stream_prefix,
  found_suffix, between, found_name, is_signature, signature_verdict, parse_clamd_reply,
  is_line_terminator,
}

-- The line that announces a verdict.
abbrev pub line_of : ScanVerdict → Text
line_of clean = clean_line
line_of (infected name) = stream_prefix ++ (name ++ found_suffix)

abbrev pub is_plausible : ScanVerdict → Bool
is_plausible clean = true
is_plausible (infected name) = is_signature name

-- The reply is the line of the verdict, with at most one NUL after it.
unfoldable pub Announces : Text → ScanVerdict → Type 0
Announces reply v =
    (is_plausible v ≡ true) × ((reply ≡ line_of v) ⊎ (reply ≡ line_of v ++ (0 ∷ [])))

trim_nul-lost : (t : Text) → (t ≡ trim_nul t) ⊎ (t ≡ trim_nul t ++ (0 ∷ []))
trim_nul-lost [] = inl refl
trim_nul-lost (x ∷ []) = ground arith
trim_nul-lost (x ∷ y ∷ ys) = elim (trim_nul-lost (y ∷ ys)) [
  | inl e ↦ inl (ap (◌∷◌ x) e)
  | inr e ↦ inr (ap (◌∷◌ x) e)
]

trimmed : (reply l : Text) → trim_nul reply ≡ l → (reply ≡ l) ⊎ (reply ≡ l ++ (0 ∷ []))
trimmed reply l e = elim (trim_nul-lost reply) [
  | inl h ↦ inl (h ∙ e)
  | inr h ↦ inr (h ∙ ap (λ t. t ++ (0 ∷ [])) e)
]

pieces :
    (line name : Text)
    → found_name line ≡ some name
    → (equal_bytes (take 8 line) stream_prefix ≡ true)
      × (equal_bytes (drop (length line - 14) (drop 8 line)) found_suffix ≡ true)
      × (between line ≡ name)
pieces line name h = ground arith

found_name-line :
    (line name : Text)
    → found_name line ≡ some name
    → line ≡ stream_prefix ++ (name ++ found_suffix)
found_name-line line name h =
    let (front, back, middle) = pieces line name h in
    let rest =
      sym (take-append-drop (length line - 14) (drop 8 line))
      ∙ ap (λ t. between line ++ t) (equal_bytes-eq _ found_suffix back)
      ∙ ap (λ t. t ++ found_suffix) middle in
    sym (take-append-drop 8 line)
    ∙ ap (λ t. t ++ drop 8 line) (equal_bytes-eq _ stream_prefix front)
    ∙ ap (λ t. stream_prefix ++ t) rest

named :
    (o : Option Text) (v : ScanVerdict)
    → signature_verdict o ≡ some v
    → (name : Text) × (v ≡ infected name) × (o ≡ some name) × (is_signature name ≡ true)
named none v h = cc
named (some name) v h = (name, ground arith, refl, ground arith)

Announces-infected :
    (reply name : Text)
    → found_name (trim_nul reply) ≡ some name
    → is_signature name ≡ true
    → Announces reply (infected name)
unfolding Announces
Announces-infected reply name e k =
    (k, trimmed reply (line_of (infected name)) (found_name-line (trim_nul reply) name e))

Announces-clean :
    (reply : Text) → equal_bytes (trim_nul reply) clean_line ≡ true → Announces reply clean
unfolding Announces
Announces-clean reply e = (refl, trimmed reply clean_line (equal_bytes-eq _ clean_line e))

pub parse_clamd_reply-Announces :
    (reply : Text) (v : ScanVerdict) → parse_clamd_reply reply ≡ some v → Announces reply v
unfolding parse_clamd_reply
parse_clamd_reply-Announces reply v h =
    elim (Bool-cases (equal_bytes (trim_nul reply) clean_line)) [
      | inl e ↦
          let is_clean : clean ≡ v = ground arith in
          subst (Announces reply) is_clean (Announces-clean reply e)
      | inr e ↦
          let read : signature_verdict (found_name (trim_nul reply)) ≡ some v = ground arith in
          let (name, is_infected, found, good) = named (found_name (trim_nul reply)) v read in
          subst (Announces reply) (sym is_infected) (Announces-infected reply name found good)
    ]

trim_nul-append :
    (xs : Text) (y : ℕ) (ys : Text) → trim_nul (xs ++ (y ∷ ys)) ≡ xs ++ trim_nul (y ∷ ys)
trim_nul-append [] y ys = refl
trim_nul-append (x ∷ []) y ys = refl
trim_nul-append (x ∷ x' ∷ xs) y ys = ap (◌∷◌ x) (trim_nul-append (x' ∷ xs) y ys)

unit-not_terminator : (c : ℕ) → is_signature_unit c ≡ true → is_line_terminator c ≡ false
unit-not_terminator c h = ground arith

units-in_line :
    (name : Text) → all is_signature_unit name ≡ true → any is_line_terminator name ≡ false
units-in_line [] h = refl
units-in_line (c ∷ cs) h =
    let (one, more) = &&-true (is_signature_unit c) (all is_signature_unit cs) h in
    let here = unit-not_terminator c one in let later = units-in_line cs more in ground arith

signature-units : (name : Text) → is_signature name ≡ true → all is_signature_unit name ≡ true
signature-units name h = ground arith

found_name-pieces :
    (line name : Text)
    → ltb (length line) 15 ≡ false
    → equal_bytes (take 8 line) stream_prefix ≡ true
    → equal_bytes (drop (length line - 14) (drop 8 line)) found_suffix ≡ true
    → between line ≡ name
    → any is_line_terminator name ≡ false
    → found_name line ≡ some name
found_name-pieces line name g front back middle units = rw (g, front, back, middle, units) refl

found_name-line_of :
    (name : Text) → is_signature name ≡ true → found_name (line_of (infected name)) ≡ some name
found_name-line_of name h =
    let size = length-append name found_suffix in
    let long : 1 ≤ length name = ground arith in
    let cut : length (line_of (infected name)) - 14 ≡ length name = omega arith in
    let middle = take-append (length (line_of (infected name)) - 14) name found_suffix (sym cut) in
    let back = drop-append (length (line_of (infected name)) - 14) name found_suffix (sym cut) in
    let ended_by = ap (λ t. equal_bytes t found_suffix) back in
    let units = units-in_line name (signature-units name h) in
    found_name-pieces (line_of (infected name)) name (ground arith) refl ended_by middle units

not_clean_line : (name : Text) → equal_bytes (line_of (infected name)) clean_line ≡ false
not_clean_line name =
    let size = length-append name found_suffix in
    elim (Bool-cases (equal_bytes (line_of (infected name)) clean_line)) [
      | inl e ↦
          let lengths = ap length (equal_bytes-eq (line_of (infected name)) clean_line e) in
          absurd (omega arith)
      | inr e ↦ e
    ]

trim_nul-line_of : (v : ScanVerdict) → trim_nul (line_of v) ≡ line_of v
trim_nul-line_of clean = refl
trim_nul-line_of (infected name) =
    trim_nul-append (stream_prefix ++ name) b' ' (drop 1 found_suffix)

trim_nul-ended : (v : ScanVerdict) → trim_nul (line_of v ++ (0 ∷ [])) ≡ line_of v
trim_nul-ended clean = refl
trim_nul-ended (infected name) =
    ap (λ t. trim_nul (stream_prefix ++ t)) (append_assoc name found_suffix (0 ∷ []))
    ∙ trim_nul-append (stream_prefix ++ name) b' ' (drop 1 found_suffix ++ (0 ∷ []))

read_line :
    (reply : Text) (v : ScanVerdict)
    → is_plausible v ≡ true
    → trim_nul reply ≡ line_of v
    → parse_clamd_reply reply ≡ some v
unfolding parse_clamd_reply
read_line reply clean k e = rw e refl
read_line reply (infected name) k e =
    let other = not_clean_line name in
    let found = found_name-line_of name k in rw (e, other, found, k) refl

-- A text is read as a verdict exactly when it is the line of that verdict, with at most one NUL after
-- it, and the name of an infection is plausible.
pub parse_clamd_reply_iff :
    (reply : Text) (v : ScanVerdict) → (parse_clamd_reply reply ≡ some v) ↔ Announces reply v
unfolding Announces
parse_clamd_reply_iff reply v = (
  parse_clamd_reply-Announces reply v,
  λ a. elim a.1 [
    | inl e ↦ read_line reply v a.0 (ap trim_nul e ∙ trim_nul-line_of v)
    | inr e ↦ read_line reply v a.0 (ap trim_nul e ∙ trim_nul-ended v)
  ],
)
