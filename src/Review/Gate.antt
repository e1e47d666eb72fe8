-- ===== src/Review/Gate.antt =====
-- When the gate lets a review pass.
use cobalt_dingo.Prelude.{
  ℕ, suc, ◌<◌, ◌≡◌, ◌↔◌, ◌⊎◌, refl, sym, ap, ◌∙◌, subst, Bool, true, false, Option, none, some,
  List, [], ◌∷◌, String, str_eq, ltb, ltb→lt, lt→ltb, inl, inr, All, Bool-cases, if◌then◌else◌,
  Result, ok, err, ok-injective, some-injective, >>=-eq-ok,
}
use cobalt_dingo.Prelude.Text.{Text, is_empty_text, trim_space}
use cobalt_dingo.Words.{trim_str}
use cobalt_dingo.Review.{
  Severity, rank, Rule, Rubric, Finding, Report, find_object, grade, grade_named, grade_all,
  grade_report, decoded, decode_object, parse_findings, is_accepted, blocks, blocking_of, blocking,
}

pass_iff :
    (b : Bool) (o : Option String)
    → ((if b then false else if is_accepted o then false else true) ≡ false)
      ↔ ((b ≡ true) ⊎ ((why : String) × (o ≡ some why)))
pass_iff true o = ((λ h. inl refl), (λ h. refl))
pass_iff false none = ((λ h. cc), (λ h. elim h [ inl e ↦ cc | inr (why, e) ↦ cc ]))
pass_iff false (some why) = ((λ h. inr (why, refl)), (λ h. refl))

-- The first entry of a list that is kept only when it blocks.
join_iff :
    {P : Type 0} {Q : Type 0} (b : Bool) (g : Finding) (rest : List Finding)
    → ((b ≡ false) ↔ P)
    → ((rest ≡ []) ↔ Q)
    → ((if b then g ∷ rest else rest) ≡ []) ↔ (P × Q)
join_iff true g rest p q = ((λ h. cc), (λ (x, y). let bad = p.1 x in cc))
join_iff false g rest p q = ((λ h. (p.0 refl, q.0 h)), (λ (x, y). q.1 y))

module _ (rubric : Rubric) (threshold : Severity) (accepted : String → Option String) where
  -- A finding that the rubric ranks below the threshold or that was answered.
  abbrev pub IsAnswered : Finding → Type 0
  IsAnswered f =
      (rule : Rule) × (rubric.rules f.rule_id ≡ some rule)
      × ((rank rule.severity < rank threshold) ⊎ ((why : String) × (accepted f.rule_id ≡ some why)))

  -- A graded finding has the severity of its rule.
  IsGraded : Finding → Finding → Type 0
  IsGraded f g =
      (rule : Rule) × (rubric.rules f.rule_id ≡ some rule)
      × (g.rule_id ≡ f.rule_id)
      × (g.severity ≡ rule.severity)

  grade-IsGraded :
      (i : ℕ) (f g : Finding) (o : Option Rule)
      → rubric.rules f.rule_id ≡ o
      → grade i f o ≡ ok g
      → IsGraded f g
  unfolding IsGraded
  grade-IsGraded i f g none is e = cc
  grade-IsGraded i f g (some rule) is e = elim (Bool-cases (str_eq (trim_str f.file) "")) [
    | inl t ↦ let bad = rw t at e in cc
    | inr n ↦ elim (Bool-cases (str_eq (trim_str f.summary) "")) [
      | inl t ↦ let bad = rw (n, t) at e in cc
      | inr m ↦
          let same = ok-injective _ _ (rw (n, m) at e) in
          (
            rule,
            is,
            sym (ap (λ (x : Finding). x.rule_id) same),
            sym (ap (λ (x : Finding). x.severity) same),
          )
    ]
  ]

  blocks_iff : (f g : Finding) → IsGraded f g → (blocks threshold accepted g ≡ false) ↔ IsAnswered f
  unfolding IsGraded
  blocks_iff f g (rule, is, id, severity) =
      let here = pass_iff (ltb (rank g.severity) (rank threshold)) (accepted g.rule_id) in
      let same_rank = ap rank severity in
      let same_answer = ap accepted id in
      (
        (λ h. elim (here.0 h) [
          | inl low ↦ (rule, is, inl (subst (λ n. n < rank threshold) same_rank (ltb→lt _ _ low)))
          | inr (why, e) ↦ (rule, is, inr (why, sym same_answer ∙ e))
        ]),
        (λ (r, found, h). here.1 (elim h [
          | inl low ↦
              let same = some-injective _ _ (sym is ∙ found) in
              inl (
                lt→ltb _ _ (
                  subst (λ n. n < rank threshold)
                    (sym (same_rank ∙ ap (λ (x : Rule). rank x.severity) same)) low))
          | inr (why, e) ↦ inr (why, same_answer ∙ e)
        ])),
      )

  named-IsGraded : (i : ℕ) (f g : Finding) → grade_named rubric i f ≡ ok g → IsGraded f g
  named-IsGraded i f g e = elim (Bool-cases (str_eq f.rule_id "")) [
    | inl t ↦ let bad = rw t at e in cc
    | inr n ↦ grade-IsGraded i f g (rubric.rules f.rule_id) refl (rw n at e)
  ]

  grade_all-blocking :
      (i : ℕ) (findings graded : List Finding)
      → grade_all rubric i findings ≡ ok graded
      → (blocking_of graded threshold accepted ≡ []) ↔ All IsAnswered findings
  unfolding grade_all blocking_of
  grade_all-blocking i [] graded e =
      subst (λ l. (blocking_of l threshold accepted ≡ []) ↔ All IsAnswered []) (ok-injective _ _ e)
        ((λ h. tt), (λ h. refl))
  grade_all-blocking i (f ∷ findings) graded e =
      let (g, one, e1) = >>=-eq-ok (grade_named rubric i f) _ e in
      let (rest, others, e2) = >>=-eq-ok (grade_all rubric (suc i) findings) _ e1 in
      let more = grade_all-blocking (suc i) findings rest others in
      let first = blocks_iff f g (named-IsGraded i f g one) in
      subst (λ l. (blocking_of l threshold accepted ≡ []) ↔ All IsAnswered (f ∷ findings))
        (ok-injective _ _ e2)
        (join_iff (blocks threshold accepted g) g (blocking_of rest threshold accepted) first more)

  report-blocking :
      (wire : Option (List Finding)) (rep : Report)
      → grade_report rubric wire ≡ ok rep
      → (findings : List Finding) × (wire ≡ some findings)
        × ((blocking rep threshold accepted ≡ []) ↔ All IsAnswered findings)
  report-blocking none rep e = cc
  report-blocking (some findings) rep e =
      let (graded, all, e1) = >>=-eq-ok (grade_all rubric 0 findings) _ e in
      (
        findings,
        refl,
        subst (λ (r : Report). (blocking r threshold accepted ≡ []) ↔ All IsAnswered findings)
            (ok-injective _ _ e1) (grade_all-blocking 0 findings graded all),
      )

  module _ (decode : Text → Result String (Option (List Finding))) where
    decoded-blocking :
        (obj : Text) (answer : Result String (Option (List Finding))) (rep : Report)
        → decode obj ≡ answer
        → decoded rubric answer ≡ ok rep
        → (findings : List Finding) × (decode obj ≡ ok (some findings))
          × ((blocking rep threshold accepted ≡ []) ↔ All IsAnswered findings)
    decoded-blocking obj (err x) rep is e = cc
    decoded-blocking obj (ok wire) rep is e =
        let (findings, whole, iff) = report-blocking wire rep e in (findings, is ∙ ap ok whole, iff)

    object-blocking :
        (o : Option Text) (rep : Report)
        → decode_object decode rubric o ≡ ok rep
        → (obj : Text) × (findings : List Finding) × (o ≡ some obj)
          × (decode obj ≡ ok (some findings))
          × ((blocking rep threshold accepted ≡ []) ↔ All IsAnswered findings)
    object-blocking none rep e = cc
    object-blocking (some obj) rep e =
        let (findings, is, iff) = decoded-blocking obj (decode obj) rep refl e in
        (obj, findings, refl, is, iff)

    -- A review that is read has an object with a list of findings in the output of the model, and
    -- the gate blocks nothing exactly when every one of them names a rule that the rubric ranks
    -- below the threshold or that was accepted. The severity that the model states has no part in it.
    pub parse_findings-blocking :
        (raw : Text) (rep : Report)
        → parse_findings decode raw rubric ≡ ok rep
        → (obj : Text) × (findings : List Finding) × (find_object raw ≡ some obj)
          × (decode obj ≡ ok (some findings))
          × ((blocking rep threshold accepted ≡ []) ↔ All IsAnswered findings)
    unfolding parse_findings
    parse_findings-blocking raw rep e = elim (Bool-cases (is_empty_text (trim_space raw))) [
      | inl t ↦ let bad = rw t at e in cc
      | inr n ↦ object-blocking (find_object raw) rep (rw n at e)
    ]
