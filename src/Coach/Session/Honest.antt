-- ===== src/Coach/Session/Honest.antt =====
-- When what the coach shows and stores is honest: every card was filtered. Showing a card keeps it so.
use p_r_i_s_m.Prelude.{
  ℕ, zero, suc, ◌≡◌, refl, sym, ap, subst, ◌∙◌, ◌⊎◌, inl, inr, List, [], ◌∷◌, map, Bool, true,
  Option, none, some, get_elem?, get_elem?-map, get_elem?-map_inv, All,
}
use mathlib.Core.Option.{some-injective}
use p_r_i_s_m.Text.{Text, Eq-Text, strip}
use p_r_i_s_m.TtlCache.Values.{AllValues}
use p_r_i_s_m.Matcher.Types.{Match}
use p_r_i_s_m.Triage.Rules.{RuleType}
use p_r_i_s_m.Triage.Summary.{Triage}
use p_r_i_s_m.Coach.Cards.{Field, text_of, static_card}
use p_r_i_s_m.Coach.Cards.Filtered.{IsSafe, post_filter_lem}
use p_r_i_s_m.Coach.Select.{
  Coached, Flag, is_coachable, is_coachable_triage, is_coachable_type, cache_key,
}
use p_r_i_s_m.Coach.Select.Chosen.{IsSelected}
use p_r_i_s_m.Coach.Session.{
  LlmClient, Libraries, Stored, Session, put_coach, show, key_of, filtered_card, card_of,
  source_excerpt, doc_excerpt,
}

-- A stored card was filtered, for a rule, a passage and an excerpt of a source whose key is the
-- given one: each field is the rule's own text or is safe.
pub record IsFiltered (lib : Libraries) (key : Text) (stored : Stored) : Type 0 where
  pub model : Text
  pub type : RuleType
  pub passage : Text
  pub source : Text
  pub same_key : key ≡ cache_key lib.utf8 lib.sha1 model type passage source
  pub checked :
      (f : Field)
      → (text_of f stored.card ≡ text_of f (static_card type))
        ⊎ IsSafe lib.unicode lib.evades source passage 8 (strip lib.unicode (text_of f stored.card))

abbrev pub as_stored : Coached → Stored
as_stored c = record { card = c.card; filtered = c.filtered }

-- A flag has no card, or its triage is one of those that ask for a card, and the card was filtered
-- under the key of the flag.
abbrev pub ShownOn : Libraries → LlmClient → Option Triage → Match → Option Coached → Type 0
ShownOn lib client triage m none = Unit
ShownOn lib client triage m (some c) =
    (t : Triage) × (triage ≡ some t)
    × (is_coachable_type t.rule.type ≡ true)
    × IsFiltered lib (key_of lib client t.rule.type m) (as_stored c)

abbrev pub IsShown : Libraries → LlmClient → Flag → Type 0
IsShown lib client flag = ShownOn lib client flag.triage flag.match flag.coach

-- A flag without its card.
abbrev pub plain : Flag → Flag
plain flag = record flag { coach = none }

plain-put_coach :
    (n : ℕ) (c : Coached) (flags : List Flag) → map plain (put_coach n c flags) ≡ map plain flags
unfolding put_coach
plain-put_coach n c [] = refl
plain-put_coach zero c (flag ∷ flags) = refl
plain-put_coach (suc n) c (flag ∷ flags) = ap (◌∷◌ (plain flag)) (plain-put_coach n c flags)

put_coach-All :
    (Q : Flag → Type 0) (n : ℕ) (c : Coached) (flags : List Flag) {g : Flag}
    → get_elem? flags n ≡ some g
    → Q (record g { coach = some c })
    → All Q flags
    → All Q (put_coach n c flags)
unfolding put_coach
put_coach-All Q n c [] e q h = tt
put_coach-All Q zero c (flag ∷ flags) {g} e q h =
    (subst (λ (f : Flag). Q (record f { coach = some c })) (sym (some-injective flag g e)) q, h.1)
put_coach-All Q (suc n) c (flag ∷ flags) e q h = (h.0, put_coach-All Q n c flags e q h.1)

-- The invariant of the loop: the flags are the given ones but for their cards, and every card, on a
-- flag and in the cache, was filtered.
pub record IsHonest (lib : Libraries) (client : LlmClient) (flags : List Flag) (s : Session)
    : Type 0 where
  pub same_flags : map plain s.flags ≡ map plain flags
  pub all_shown : All (IsShown lib client) s.flags
  pub all_stored : AllValues (IsFiltered lib) s.cache

module _ (lib : Libraries) (client : LlmClient) (flags : List Flag) where
  pub show-IsHonest :
      (n : ℕ) (cached : Bool) (stored : Stored) (f : Flag) (t : Triage) (s : Session)
      → IsSelected flags (n, f)
      → f.triage ≡ some t
      → IsFiltered lib (key_of lib client t.rule.type f.match) stored
      → IsHonest lib client flags s
      → IsHonest lib client flags (show n client.model cached stored s)
  unfolding show IsSelected is_coachable is_coachable_triage
  show-IsHonest n cached stored f t s (at_n, asks) e filtered h =
      let c : Coached = record {
        card = stored.card;
        filtered = stored.filtered;
        model = client.model;
        cached = cached;
      } in
      let there : get_elem? (map plain s.flags) n ≡ some (plain f) =
        ap (λ (l : List Flag). get_elem? l n) h.same_flags ∙ get_elem?-map plain flags n at_n in
      let (g, at_g, same) = get_elem?-map_inv plain s.flags n there in
      let asks' : is_coachable_type t.rule.type ≡ true =
        subst (λ (o : Option Triage). is_coachable_triage o ≡ true) e asks in
      let shown : ShownOn lib client g.triage g.match (some c) =
        subst (λ (p : Flag). ShownOn lib client p.triage p.match (some c)) (sym same)
          (t, e, asks', filtered) in
      record {
        same_flags = plain-put_coach n c s.flags ∙ h.same_flags;
        all_shown = put_coach-All (IsShown lib client) n c s.flags at_g shown h.all_shown;
        all_stored = h.all_stored;
      }

  -- The flags and the cache are all that the invariant is about.
  pub of_same_flags :
      (s s' : Session)
      → s'.flags ≡ s.flags
      → AllValues (IsFiltered lib) s'.cache
      → IsHonest lib client flags s
      → IsHonest lib client flags s'
  of_same_flags s s' e stored h = record {
    same_flags = ap (map plain) e ∙ h.same_flags;
    all_shown = subst (All (IsShown lib client)) (sym e) h.all_shown;
    all_stored = stored;
  }

  pub filtered_card-IsFiltered :
      (type : RuleType) (m : Match) (texts : Field → Text)
      → let filtered = filtered_card lib type m texts in
        IsFiltered lib
          (key_of lib client type m)
          (record { card = filtered.0; filtered = filtered.1 })
  unfolding filtered_card key_of
  filtered_card-IsFiltered type m texts = record {
    model = client.model;
    type = type;
    passage = doc_excerpt m;
    source = source_excerpt m;
    same_key = refl;
    checked = λ f.
        elim (post_filter_lem lib.unicode lib.evades (source_excerpt m) (doc_excerpt m) 8
          (static_card type) (card_of texts) f) [
            | inl (safe, same, named) ↦ inr (
                subst
                  (λ (v : Text).
                    IsSafe lib.unicode lib.evades (source_excerpt m) (doc_excerpt m) 8
                      (strip lib.unicode v))
                  (sym same) safe)
            | inr (bad, same, named) ↦ inl same
          ];
  }
