-- ===== src/Identity/Sealed.antt =====
-- What a seal is good for: exactly the browser and the leg that it was made for.
use shannon_bot.Base.{
  ==_iff, Bool-cases, Option, Option-cases, [], ap, arith, inl, inr, none, refl, some, subst, sym,
  true, ◌&&◌, ◌++◌, ◌==◌, ◌↔◌, ◌∙◌, ◌∷◌, ◌≡◌,
}
use shannon_bot.Domain.Text.{Text, text_eq, text_eq_iff}
use shannon_bot.Identity.Seals.{
  Leg, all_url_safe, cut_at_last_dot, has_shape, is_url_safe, leg_message, leg_name, mac_of, sealed,
  unsealed, unsealed_parts,
}

cut-none : (s : Text) → all_url_safe s ≡ true → cut_at_last_dot s ≡ none
unfolding all_url_safe is_url_safe cut_at_last_dot
cut-none [] h = refl
cut-none (c ∷ s) h = rw (cut_at_last_dot, cut-none s (ground arith)) (ground arith)

cut-append :
    (token m : Text) → all_url_safe m ≡ true → cut_at_last_dot (token ++ (46 ∷ m)) ≡ some (token, m)
unfolding cut_at_last_dot
cut-append [] m h = rw (cut_at_last_dot, cut-none m h) refl
cut-append (c ∷ token) m h = rw (cut_at_last_dot, cut-append token m h) refl

cut-some :
    (s before after : Text) → cut_at_last_dot s ≡ some (before, after) → s ≡ before ++ (46 ∷ after)
unfolding cut_at_last_dot
cut-some [] before after h = cc
cut-some (c ∷ s) before after h = elim (Option-cases (cut_at_last_dot s)) [
  | inr ((b, a), e) ↦
      let h' : ◌≡◌ {A = Option (Text × Text)} (some (c ∷ b, a)) (some (before, after)) =
        rw (cut_at_last_dot, e) at h in
      let ih = cut-some s b a e in
      let first : c ∷ b ≡ before = cc in
      let last : a ≡ after = cc in
      ap (λ x. c ∷ x) ih ∙ ap (λ x. x ++ (46 ∷ a)) first ∙ ap (λ x. before ++ (46 ∷ x)) last
  | inl e ↦ elim (Bool-cases (c == 46)) [
    | inl dot ↦
        let h' : ◌≡◌ {A = Option (Text × Text)} (some ([], s)) (some (before, after)) =
          rw (cut_at_last_dot, e, dot) at h in
        let first : [] ≡ before = cc in
        let last : s ≡ after = cc in
        let is_dot : c ≡ 46 = (==_iff c 46).0 dot in
        ap (λ x. x ∷ s) is_dot ∙ ap (λ x. 46 ∷ x) last ∙ ap (λ x. x ++ (46 ∷ after)) first
    | inr other ↦
        let h' : ◌≡◌ {A = Option (Text × Text)} none (some (before, after)) =
          rw (cut_at_last_dot, e, other) at h in
        cc
  ]
]

module _ (mac hex_mac : Text → Text → Text) where
  abbrev pub seal_of : Text → Leg → Text → Text
  seal_of browser leg token = token ++ (46 ∷ mac browser (leg_message (leg_name leg) token))

  pub sealed-eq :
      (browser token : Text) (leg : Leg)
      → has_shape browser ≡ true
      → sealed mac hex_mac browser leg token ≡ some (seal_of browser leg token)
  unfolding sealed mac_of
  sealed-eq browser token leg h = rw (sealed, mac_of, h) refl

  unsealed_parts-eq :
      (browser token seal : Text) (leg : Leg) (parts : Option (Text × Text))
      → cut_at_last_dot seal ≡ parts
      → unsealed_parts mac hex_mac browser leg parts ≡ some token
      → (has_shape token ≡ true) × (seal ≡ seal_of browser leg token)
  unfolding unsealed_parts
  unsealed_parts-eq browser token seal leg none e h = cc
  unsealed_parts-eq browser token seal leg (some (before, after)) e h =
      let m = mac browser (leg_message (leg_name leg) before) in
      elim (Bool-cases (has_shape before && text_eq after m)) [
        | inr f ↦
            let out : ◌≡◌ {A = Option Text} none (some token) = rw (unsealed_parts, f) at h in cc
        | inl f ↦
            let out : ◌≡◌ {A = Option Text} (some before) (some token) =
              rw (unsealed_parts, f) at h in
            let same : before ≡ token = cc in
            let shaped : has_shape before ≡ true = ground arith in
            let sealing : after ≡ m = (text_eq_iff after m).0 (ground arith) in
            (
              subst (λ (x : Text). has_shape x ≡ true) same shaped,
              cut-some seal before after e
                  ∙ ap (λ (x : Text). before ++ (46 ∷ x)) sealing
                  ∙ ap (λ (x : Text). seal_of browser leg x) same,
            )
      ]

  unsealed-eq :
      (browser token seal : Text) (leg : Leg)
      → unsealed mac hex_mac browser leg seal ≡ some token
      → (has_shape browser ≡ true) × (has_shape token ≡ true) × (seal ≡ seal_of browser leg token)
  unfolding unsealed
  unsealed-eq browser token seal leg h = elim (Bool-cases (has_shape browser)) [
    | inr e ↦ let out : ◌≡◌ {A = Option Text} none (some token) = rw (unsealed, e) at h in cc
    | inl shaped ↦
        let (a, b) =
          unsealed_parts-eq browser token seal leg (cut_at_last_dot seal) refl
            (rw (unsealed, shaped) at h) in
        (shaped, a, b)
  ]

  sealed-shaped :
      (browser token seal : Text) (leg : Leg)
      → sealed mac hex_mac browser leg token ≡ some seal
      → (has_shape browser ≡ true) × (seal ≡ seal_of browser leg token)
  unfolding sealed mac_of
  sealed-shaped browser token seal leg h = elim (Bool-cases (has_shape browser)) [
    | inl e ↦
        let out : ◌≡◌ {A = Option Text} (some (seal_of browser leg token)) (some seal) =
          rw (sealed, mac_of, e) at h in
        (e, cc)
    | inr e ↦ let out : ◌≡◌ {A = Option Text} none (some seal) = rw (sealed, mac_of, e) at h in cc
  ]

  pub unsealed-seal_of :
      (browser token : Text) (leg : Leg)
      → has_shape browser ≡ true
      → has_shape token ≡ true
      → all_url_safe (mac browser (leg_message (leg_name leg) token)) ≡ true
      → unsealed mac hex_mac browser leg (seal_of browser leg token) ≡ some token
  unfolding unsealed unsealed_parts
  unsealed-seal_of browser token leg a b safe =
      let m = mac browser (leg_message (leg_name leg) token) in
      rw (unsealed, a, cut-append token m safe, unsealed_parts, b, (text_eq_iff m m).1 refl) refl

  -- Where the HMAC is written in the URL's alphabet: a browser opens a seal exactly if it is the one
  -- that this browser makes for that leg, of a state of the right shape.
  pub unsealed-sealed :
      (browser token seal : Text) (leg : Leg)
      → ((key message : Text) → all_url_safe (mac key message) ≡ true)
      → (unsealed mac hex_mac browser leg seal ≡ some token)
        ↔ ((has_shape token ≡ true) × (sealed mac hex_mac browser leg token ≡ some seal))
  unsealed-sealed browser token seal leg safe = (
    (λ h.
        let (a, b, e) = unsealed-eq browser token seal leg h in
        (b, sealed-eq browser token leg a ∙ ap some (sym e))),
    (λ h.
        let (shaped, same) = sealed-shaped browser token seal leg h.1 in
        ap (unsealed mac hex_mac browser leg) same
        ∙ unsealed-seal_of browser token leg shaped h.0
            (safe browser (leg_message (leg_name leg) token))),
  )
