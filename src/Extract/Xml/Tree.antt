-- ===== src/Extract/Xml/Tree.antt =====
-- Documents as trees, and the tokens that the decoder returns for them.
use findo.Prelude.{
  ℕ, suc, ◌≡◌, refl, sym, append-nil, Bool-cases, inl, inr, ap, ◌∙◌, Bool, true, false, Option,
  none, some, List, [], ◌∷◌, ◌++◌, append_assoc, Text,
}
use findo.Extract.Proto.{FormatError}
use findo.Extract.Xml.{Attr, Token, start_tag, end_tag, chars, other_token, at_eof, scan}

mutual
  pub data Node : Type 0 where
    element : Text → List Attr → Forest → Node
    text_node : Text → Node
    comment : Node

  pub data Forest : Type 0 where
    nil : Forest
    cons : Node → Forest → Forest

unfoldable mutual
  pub node_tokens : Node → List Token
  node_tokens (element name attrs kids) =
      start_tag name attrs ∷ forest_tokens kids ++ end_tag name ∷ []
  node_tokens (text_node t) = chars t ∷ []
  node_tokens comment = other_token ∷ []

  pub forest_tokens : Forest → List Token
  forest_tokens nil = []
  forest_tokens (cons n f) = node_tokens n ++ forest_tokens f

module _ {ℓ} {S : Type ℓ} (skips : Text → Bool) (step : S → Token → S) (is_full : S → Bool) where
  -- Skip passes over whole elements.
  mutual
    unfolding node_tokens scan

    skip-node :
        (n : Node) (d : ℕ) (rest : List Token) (failure : Option FormatError) (s : S)
        → scan skips step is_full (some d) (node_tokens n ++ rest) failure s
          ≡ scan skips step is_full (some d) rest failure s
    skip-node (element name attrs kids) d rest failure s =
        ap (λ ts. scan skips step is_full (some (suc d)) ts failure s)
          (append_assoc (forest_tokens kids) (end_tag name ∷ []) rest)
        ∙ skip-forest kids (suc d) (end_tag name ∷ rest) failure s
    skip-node (text_node t) d rest failure s = refl
    skip-node comment d rest failure s = refl

    pub skip-forest :
        (f : Forest) (d : ℕ) (rest : List Token) (failure : Option FormatError) (s : S)
        → scan skips step is_full (some d) (forest_tokens f ++ rest) failure s
          ≡ scan skips step is_full (some d) rest failure s
    skip-forest nil d rest failure s = refl
    skip-forest (cons n f) d rest failure s =
        ap (λ ts. scan skips step is_full (some d) ts failure s)
          (append_assoc (node_tokens n) (forest_tokens f) rest)
        ∙ (skip-node n d (forest_tokens f ++ rest) failure s ∙ skip-forest f d rest failure s)

  -- A token that does not fill what is collected is one step.
  pub scan-start :
      (name : Text) (attrs : List Attr) (ts : List Token) (failure : Option FormatError) (s : S)
      → skips name ≡ false
      → is_full (step s (start_tag name attrs)) ≡ false
      → scan skips step is_full none (start_tag name attrs ∷ ts) failure s
        ≡ scan skips step is_full none ts failure (step s (start_tag name attrs))
  unfolding scan
  scan-start name attrs ts failure s taken room = rw (taken, room) refl

  pub scan-fallback :
      (name : Text) (attrs : List Attr) (kids : Forest) (ts : List Token)
      (failure : Option FormatError) (s : S)
      → skips name ≡ true
      → is_full s ≡ false
      → scan skips step is_full none (node_tokens (element name attrs kids) ++ ts) failure s
        ≡ scan skips step is_full none ts failure s
  unfolding scan node_tokens
  scan-fallback name attrs kids ts failure s skipped room = rw skipped (
      ap (λ l. scan skips step is_full (some 0) l failure s)
        (append_assoc (forest_tokens kids) (end_tag name ∷ []) ts)
      ∙ (skip-forest kids 0 (end_tag name ∷ ts) failure s ∙ rw room refl))

  pub scan-end :
      (name : Text) (ts : List Token) (failure : Option FormatError) (s : S)
      → is_full (step s (end_tag name)) ≡ false
      → scan skips step is_full none (end_tag name ∷ ts) failure s
        ≡ scan skips step is_full none ts failure (step s (end_tag name))
  unfolding scan
  scan-end name ts failure s room = rw room refl

  pub scan-chars :
      (t : Text) (ts : List Token) (failure : Option FormatError) (s : S)
      → is_full (step s (chars t)) ≡ false
      → scan skips step is_full none (chars t ∷ ts) failure s
        ≡ scan skips step is_full none ts failure (step s (chars t))
  unfolding scan
  scan-chars t ts failure s room = rw room refl

  pub scan-other :
      (ts : List Token) (failure : Option FormatError) (s : S)
      → is_full (step s other_token) ≡ false
      → scan skips step is_full none (other_token ∷ ts) failure s
        ≡ scan skips step is_full none ts failure (step s other_token)
  unfolding scan
  scan-other ts failure s room = rw room refl

-- A loop that is never done passes over whole elements to the tokens behind them.
module _ {ℓ} {S : Type ℓ} (skips : Text → Bool) (step : S → Token → S) where
  abbrev pub Passes : List Token → Type ℓ
  Passes ts =
      (rest : List Token) (failure : Option FormatError) (s : S)
      → (s' : S) × (scan skips step (λ v. false) none (ts ++ rest) failure s
          ≡ scan skips step (λ v. false) none rest failure s')

  element-Passes :
      (name : Text) (attrs : List Attr) (kids : Forest)
      → Passes (forest_tokens kids)
      → Passes (node_tokens (element name attrs kids))
  unfolding node_tokens scan
  element-Passes name attrs kids below rest failure s = elim (Bool-cases (skips name)) [
    | inl skipped ↦
        (s, scan-fallback skips step (λ v. false) name attrs kids rest failure s skipped refl)
    | inr taken ↦
        let (s', inner) = below (end_tag name ∷ rest) failure (step s (start_tag name attrs)) in
        (
          step s' (end_tag name),
          rw taken (
              ap
                (λ ts. scan skips step (λ v. false) none ts failure (step s (start_tag name attrs)))
                (append_assoc (forest_tokens kids) (end_tag name ∷ []) rest)
              ∙ inner),
        )
  ]

  mutual
    unfolding node_tokens scan

    node-Passes : (n : Node) → Passes (node_tokens n)
    node-Passes (element name attrs kids) = element-Passes name attrs kids (forest-Passes kids)
    node-Passes (text_node t) = λ rest failure s. (step s (chars t), refl)
    node-Passes comment = λ rest failure s. (step s other_token, refl)

    pub forest-Passes : (f : Forest) → Passes (forest_tokens f)
    forest-Passes nil = λ rest failure s. (s, refl)
    forest-Passes (cons n f) = λ rest failure s.
        let (s', first) = node-Passes n (forest_tokens f ++ rest) failure s in
        let (s'', others) = forest-Passes f rest failure s' in
        (
          s'',
          ap (λ ts. scan skips step (λ v. false) none ts failure s)
                (append_assoc (node_tokens n) (forest_tokens f) rest)
              ∙ (first ∙ others),
        )

  -- A whole document is read to its end.
  pub scan-whole :
      (f : Forest) (s : S)
      → (s' : S) × (scan skips step (λ v. false) none (forest_tokens f) none s ≡ (s', at_eof))
  unfolding scan
  scan-whole f s =
      let (s', e) = forest-Passes f [] none s in
      (
        s',
        ap (λ ts. scan skips step (λ v. false) none ts none s) (sym (append-nil (forest_tokens f)))
            ∙ e,
      )
