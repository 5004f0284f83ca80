-- ===== src/Health/Range.antt =====
-- The range of the health score, and which way it goes.
use savantix_dali_edge_contr.Prelude.{
  ◌≡◌, true, false, ◌&&◌, List, [], ◌∷◌, if◌then◌else◌, inl, inr, Bool-cases, subst, arith,
  FloatOps,
}
use savantix_dali_edge_contr.Health.Deductions.{
  IsOrdered, is_faulty, IsScoring, deductions-Sum, deductions-faultless,
}
use savantix_dali_edge_contr.Health.{
  HealthObservation, HealthScoringConfig, LightHealthEngine, max, min, deductions_of, next_score,
  evaluate,
}

module _ {F : Type 0} (fl : FloatOps F) where
  abbrev pub evaluate_all : List HealthObservation → LightHealthEngine F → LightHealthEngine F
  evaluate_all [] engine = engine
  evaluate_all (o ∷ os) engine = evaluate_all os (evaluate fl engine o).1

module _ {F : Type 0} (fl : FloatOps F) (IsNumber : F → Type 0) where
  -- A score: a number from 0 to 100.
  pub record IsScore (s : F) : Type 0 where
    pub number : IsNumber s
    pub low : fl.le (fl.lit 0 0) s ≡ true
    pub high : fl.le s (fl.lit 100 0) ≡ true

module _ {F : Type 0} (fl : FloatOps F) (IsNumber : F → Type 0) (laws : IsOrdered fl IsNumber) where
  max-high : (a b c : F) → fl.le a c ≡ true → fl.le b c ≡ true → fl.le (max fl a b) c ≡ true
  max-high a b c p q = elim (Bool-cases (fl.lt a b)) [ inl e ↦ rw e q | inr e ↦ rw e p ]

  max-left : (a b : F) → IsNumber a → fl.le a (max fl a b) ≡ true
  max-left a b n = elim (Bool-cases (fl.lt a b)) [
    | inl e ↦ rw e (laws.lt_le a b e)
    | inr e ↦ rw e (laws.le_refl a n)
  ]

  max-right : (a b : F) → IsNumber a → IsNumber b → fl.le b (max fl a b) ≡ true
  max-right a b n n' = elim (Bool-cases (fl.lt a b)) [
    | inl e ↦ rw e (laws.le_refl b n')
    | inr e ↦ rw e (laws.not_lt a b n n' e)
  ]

  max-IsNumber : (a b : F) → IsNumber a → IsNumber b → IsNumber (max fl a b)
  max-IsNumber a b n n' = elim (Bool-cases (fl.lt a b)) [ inl e ↦ rw e n' | inr e ↦ rw e n ]

  abbrev target : F → F
  target d = max fl (fl.lit 0 0) (fl.sub (fl.lit 100 0) d)

  target-IsScore : (d : F) → fl.le (fl.lit 0 0) d ≡ true → IsScore fl IsNumber (target d)
  target-IsScore d low =
      let zero' = laws.lit_number 0 0 in
      let (number, down) =
        laws.sub_down (fl.lit 100 0) d laws.hundred (laws.le_refl _ (laws.lit_number 100 0)) low in
      record {
        number = max-IsNumber _ _ zero' number;
        low = max-left _ _ zero';
        high = max-high _ _ _ laws.hundred down;
      }

  -- The score after an observation with the deductions `d`.
  record Moved (d s s' : F) : Type 0 where
    score : IsScore fl IsNumber s'
    falls : fl.lt (fl.lit 0 0) d ≡ true → fl.le s' s ≡ true
    rises : d ≡ fl.lit 0 0 → fl.le s s' ≡ true

  -- Without deductions the target is not below any score.
  not_below : (d s : F) → IsScore fl IsNumber s → d ≡ fl.lit 0 0 → fl.lt (target d) s ≡ false
  not_below d s v clean = elim (Bool-cases (fl.lt (target d) s)) [
    | inl under ↦
        let zero' = laws.lit_number 0 0 in
        let (number, _) =
          laws.sub_down (fl.lit 100 0) (fl.lit 0 0) laws.hundred
            (laws.le_refl _ (laws.lit_number 100 0)) (laws.le_refl _ zero') in
        let top = laws.le_trans _ _ _ laws.sub_zero (max-right _ _ zero' number) in
        let over = laws.le_trans s _ _ v.high top in
        let rest = target (fl.lit 0 0) in
        let less : fl.lt rest s ≡ true = subst (λ t. fl.lt (target t) s ≡ true) clean under in
        absurd (cc (laws.lt_trans rest s rest less over, laws.lt_irrefl rest))
    | inr fine ↦ fine
  ]

  fallen :
      (d s : F)
      → IsScore fl IsNumber s
      → fl.le (fl.lit 0 0) d ≡ true
      → fl.lt (target d) s ≡ true
      → Moved d s (max fl (target d) (fl.sub s d))
  fallen d s v low under =
      let t = target-IsScore d low in
      let (number, down) = laws.sub_down s d v.low v.high low in
      let less = max-high _ _ _ (laws.lt_le _ _ under) down in
      record {
        score = record {
          number = max-IsNumber _ _ t.number number;
          low = laws.le_trans _ _ _ t.low (max-left _ _ t.number);
          high = laws.le_trans _ _ _ less v.high;
        };
        falls = λ _. less;
        rises = λ clean. absurd (cc (under, not_below d s v clean));
      }

  risen :
      (d s step : F)
      → IsScore fl IsNumber s
      → fl.le (fl.lit 0 0) step ≡ true
      → fl.eq d (fl.lit 0 0) ≡ true
      → Moved d s (min fl (fl.lit 100 0) (fl.add s step))
  risen d s step v low clean =
      let (number, up, _) = laws.add_up s step v.low low in
      elim (Bool-cases (fl.lt (fl.add s step) (fl.lit 100 0))) [
        | inl under ↦ rw under (record {
          score = record {
            number = number;
            low = laws.le_trans _ _ _ v.low up;
            high = laws.lt_le _ _ under;
          };
          falls = λ above. absurd (cc (laws.lt_ne (fl.lit 0 0) d above, clean));
          rises = λ _. up;
        })
        | inr over ↦ rw over (record {
          score = record {
            number = laws.lit_number 100 0;
            low = laws.hundred;
            high = laws.le_refl _ (laws.lit_number 100 0);
          };
          falls = λ above. absurd (cc (laws.lt_ne (fl.lit 0 0) d above, clean));
          rises = λ _. v.high;
        })
      ]

  next_score-Moved :
      (config : HealthScoringConfig F) (d s : F)
      → IsScore fl IsNumber s
      → fl.le (fl.lit 0 0) d ≡ true
      → fl.le (fl.lit 0 0) config.recovery_step ≡ true
      → Moved d s (next_score fl config d s)
  next_score-Moved config d s v low step = elim (Bool-cases (fl.lt (target d) s)) [
    | inl under ↦ rw under (fallen d s v low under)
    | inr fine ↦ elim (Bool-cases (fl.lt s (fl.lit 100 0) && fl.eq d (fl.lit 0 0))) [
      | inl both ↦ rw (fine, both) (risen d s config.recovery_step v step (ground arith))
      | inr stays ↦
          let same = laws.le_refl s v.number in
          rw (fine, stays) (record { score = v; falls = λ _. same; rises = λ _. same })
    ]
  ]

  evaluate-Moved :
      (engine : LightHealthEngine F) (o : HealthObservation)
      → IsScoring fl engine.config
      → IsScore fl IsNumber engine.score
      → Moved (deductions_of fl o engine.config) engine.score (evaluate fl engine o).1.score
  unfolding evaluate
  evaluate-Moved engine o c v =
      next_score-Moved engine.config (deductions_of fl o engine.config) engine.score v
        (deductions-Sum fl IsNumber laws o engine.config c).low c.step

  evaluate_all-IsScore :
      (os : List HealthObservation) (engine : LightHealthEngine F)
      → IsScoring fl engine.config
      → IsScore fl IsNumber engine.score
      → IsScoring fl (evaluate_all fl os engine).config
        × IsScore fl IsNumber (evaluate_all fl os engine).score
  unfolding evaluate
  evaluate_all-IsScore [] engine c v = (c, v)
  evaluate_all-IsScore (o ∷ os) engine c v =
      evaluate_all-IsScore os (evaluate fl engine o).1 c (evaluate-Moved engine o c v).score

  -- With deductions above 0, a recovery step not below it and a score from 0 to 100, and floats of which
  -- the numbers keep to `IsOrdered`, the score that any further observation is answered with is a number
  -- from 0 to 100. It is not above the score before if the observation has anything wrong with the light,
  -- and not below it otherwise.
  pub evaluate-score :
      (os : List HealthObservation) (o : HealthObservation) (engine : LightHealthEngine F)
      → IsScoring fl engine.config
      → IsScore fl IsNumber engine.score
      → let old = (evaluate_all fl os engine).score in
        let new = (evaluate fl (evaluate_all fl os engine) o).0.health_score in
        IsScore fl IsNumber new × ((if is_faulty o then fl.le new old else fl.le old new) ≡ true)
  unfolding evaluate
  evaluate-score os o engine c v =
      let now = evaluate_all fl os engine in
      let (c', v') = evaluate_all-IsScore os engine c v in
      let moved = evaluate-Moved now o c' v' in
      (
        moved.score,
        elim (Bool-cases (is_faulty o)) [
          | inl wrong ↦
              rw wrong
                (moved.falls ((deductions-Sum fl IsNumber laws o now.config c').positive wrong))
          | inr fine ↦
              rw fine (moved.rises (deductions-faultless fl IsNumber laws o now.config fine))
        ],
      )
