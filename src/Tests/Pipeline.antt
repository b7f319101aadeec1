-- ===== src/Tests/Pipeline.antt =====
-- The reranking of two matches by a model that answers with whole ten-thousandths.
use p_r_i_s_m.Prelude.{
  arith, ℕ, List, [], ◌∷◌, map, true, some, none, leb, min, ◌≡◌, refl, Option, false, if◌then◌else◌,
}
use p_r_i_s_m.Matcher.Types.{Match, Confidence, confident}
use p_r_i_s_m.Matcher.Coverage.{Rounding}
use p_r_i_s_m.Tests.Triage.{python, copied, restated, doc, overall}
use p_r_i_s_m.Pipeline.Rerank
use p_r_i_s_m.Triage.Signals.{Paragraph}
use p_r_i_s_m.Pipeline.Localize.Located.{IsLaidOut}
use p_r_i_s_m.Pipeline.Rerank.{Scores, RerankStage, Context}
use p_r_i_s_m.Pipeline.Rerank.Scored.{IsReranked, run-IsReranked}

abbrev pub ten_thousandths : Scores
ten_thousandths = record {
  Raw = ℕ;
  Score = ℕ;
  to_float = λ s. if leb s 20000 then some s else none;
  clip = λ s. min 10000 s;
  round = λ s. s;
  at_least = λ s c. leb c s;
}

abbrev pub stage : RerankStage
stage = record { enabled = true; lo = 6000; hi = 9200; max_pairs = 200; confident_threshold = 7800 }

abbrev pub rounding : Rounding
rounding = record { percent = λ x total. x }

-- the second match has an excerpt of the document, and a conflict of figures
abbrev context : Context
context = record {
  matches = copied ∷ record restated { doc_excerpt = some doc; numeric_conflict = true } ∷ [];
  overall = overall;
  confident_threshold_used = none;
  reranked_count = none;
  warned = false;
}

abbrev pub predict : List Match → Option (List ℕ)
predict ms = some (map (λ m. 8000) ms)

after : Option Context
unfolding Rerank.run
after = Rerank.run ten_thousandths stage python.unicode rounding [] predict context

abbrev bands : Option Context → List Confidence
bands none = []
bands (some ctx) = map (λ m. m.confidence) ctx.matches

-- the score lifts the match into the confident band, though its figures conflict
bands_after : bands after ≡ confident ∷ confident ∷ []
unfolding after
bands_after = refl

run-IsReranked_example :
    IsReranked ten_thousandths stage python.unicode predict context
      (Rerank.run ten_thousandths stage python.unicode rounding [] predict context)
run-IsReranked_example =
    run-IsReranked ten_thousandths stage python.unicode rounding [] predict context

abbrev first_paragraph : Paragraph
first_paragraph = record { index = 0; start = 0; stop = 10; text = none; page = some 1 }

abbrev second_paragraph : Paragraph
second_paragraph = record { index = 1; start = 11; stop = 21; text = none; page = some 2 }

abbrev paragraphs : List Paragraph
paragraphs = first_paragraph ∷ second_paragraph ∷ []

paragraphs-IsLaidOut : IsLaidOut paragraphs
unfolding IsLaidOut
paragraphs-IsLaidOut = (omega arith, (omega arith, tt), (omega arith, tt, tt))
