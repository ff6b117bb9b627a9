-- ===== src/Memory/Recalled.antt =====
-- internal/service/memory.go and internal/repository/chat_memory_repo.go: what is read back.
use astra_backend.Prelude.{
  take-Has, sort_before-Has, select-Has, ℕ, suc, ◌≤◌, ◌≡◌, refl, ap, subst, ◌∙◌, Bool, true, false,
  not, ◌&&◌, Option, none, ◌⊎◌, inl, inr, some, List, [], ◌∷◌, arith, Text, ◌==◌, if◌then◌else◌,
  first, first-change, change, length, length-take_bound, All, All-take, Has, Has-All, Has-select,
  IsOrdered, take-IsOrdered, sort_before-IsOrdered, All-sort_before,
}
use astra_backend.Store.{Result, ok, read, store_failure, World, pure, ◌>>=◌, attempt}
use astra_backend.Store.Laws.{Ends, Ends-map, read-Ends, write_checked-Makes, bind_step}
use astra_backend.Store.Outcomes.{fails, later, attempt_at}
use astra_backend.Memory.{
  ChatMemory, Memories, summary_key_norm, keyed, is_summary, lasts, more_salient, facts_of,
  top_facts, summary_of, get_summary, put, summary_row, set_summary,
}
use astra_backend.Memory.Stored.{keyed_self}
use astra_backend.Memory.Grows.{put_checked-put}
use astra_backend.Memory.Service.{RecallResult, max_injected_facts, recalled, recall}

-- A live fact of the user, from the table.
abbrev pub IsLive : ℕ → ℕ → Memories → ChatMemory → Type 0
IsLive now user_id t m =
    Has m t.rows × (m.user_id == user_id && not (is_summary m) && lasts now m.expires_at ≡ true)

-- At most eight live facts, the most salient first and then the latest; a live fact that is not among
-- them stands behind eight that are.
abbrev pub IsTop : ℕ → ℕ → Memories → List ChatMemory → Type 0
IsTop now user_id t facts =
    All (IsLive now user_id t) facts
    × (length facts ≤ 8)
    × IsOrdered more_salient facts
    × All
        (λ m.
          ((m.user_id == user_id && not (is_summary m) && lasts now m.expires_at) ≡ false)
          ⊎ Has m facts
          ⊎ ((length facts ≡ 8) × All (λ x. more_salient x m ≡ true) facts))
        t.rows

-- Of two round trips, each gives its part unless it fails.
abbrev pub IsRecall : ℕ → ℕ → List Bool → Memories → RecallResult → Type 0
IsRecall now user_id fs t r =
    (((fails fs ≡ true) × (r.facts ≡ [])) ⊎ ((fails fs ≡ false) × IsTop now user_id t r.facts))
    × (((fails (later fs) ≡ true) × (r.summary ≡ []) × (r.summary_at ≡ 0))
        ⊎ ((fails (later fs) ≡ false) × ((r.summary, r.summary_at) ≡ summary_of user_id t)))

more_salient_total : (a b : ChatMemory) → more_salient a b ≡ false → more_salient b a ≡ true
more_salient_total a b h = ground arith

more_salient_trans :
    (a b c : ChatMemory)
    → more_salient a b ≡ true
    → more_salient b c ≡ true
    → more_salient a c ≡ true
more_salient_trans a b c h k = ground arith

facts_of-IsLive :
    (now user_id limit : ℕ) (t : Memories)
    → All (IsLive now user_id t) (facts_of now user_id limit t)
unfolding facts_of
facts_of-IsLive now user_id limit t =
    All-take _ _ _ (All-sort_before more_salient _ _ (Has-All _ _ (λ m h. Has-select _ m t.rows h)))

facts_of-IsOrdered :
    (now user_id limit : ℕ) (t : Memories) → IsOrdered more_salient (facts_of now user_id limit t)
unfolding facts_of
facts_of-IsOrdered now user_id limit t =
    take-IsOrdered more_salient _ _
      (sort_before-IsOrdered more_salient more_salient_total more_salient_trans _)

facts_of-length :
    (now user_id : ℕ) (t : Memories) → length (facts_of now user_id max_injected_facts t) ≤ 8
unfolding facts_of
facts_of-length now user_id t = length-take_bound 8 _

facts_of-Has :
    (now user_id : ℕ) (t : Memories) (m : ChatMemory)
    → Has m t.rows
    → (m.user_id == user_id && not (is_summary m) && lasts now m.expires_at) ≡ true
    → Has m (facts_of now user_id max_injected_facts t)
      ⊎ ((length (facts_of now user_id max_injected_facts t) ≡ 8)
          × All (λ x. more_salient x m ≡ true) (facts_of now user_id max_injected_facts t))
unfolding facts_of
facts_of-Has now user_id t m h live =
    take-Has more_salient 8 m _
      (sort_before-IsOrdered more_salient more_salient_total more_salient_trans _)
      (sort_before-Has more_salient m _ (select-Has _ m t.rows h live))

facts_of-IsTop :
    (now user_id : ℕ) (t : Memories)
    → IsTop now user_id t (facts_of now user_id max_injected_facts t)
facts_of-IsTop now user_id t = (
  facts_of-IsLive now user_id max_injected_facts t,
  facts_of-length now user_id t,
  facts_of-IsOrdered now user_id max_injected_facts t,
  Has-All _ t.rows (λ m h. left_out m h _ refl),
)
  where
    live : ChatMemory → Bool
    live m = m.user_id == user_id && not (is_summary m) && lasts now m.expires_at

    left_out :
        (m : ChatMemory)
        → Has m t.rows
        → (b : Bool) → live m ≡ b
        → (live m ≡ false)
          ⊎ Has m (facts_of now user_id max_injected_facts t)
          ⊎ ((length (facts_of now user_id max_injected_facts t) ≡ 8)
              × All (λ x. more_salient x m ≡ true) (facts_of now user_id max_injected_facts t))
    left_out m h false e = inl e
    left_out m h true e = inr (facts_of-Has now user_id t m h e)

-- Recall never fails and changes nothing: it gives at most eight facts that the user has and that have not
-- expired, never a summary among them, the most salient first and the latest first among equals, and
-- leaves one out only behind eight that are no less salient; and the stored summary. A read that fails
-- leaves its part empty, and only that does.
pub recall-Ends :
    (now user_id : ℕ) (w : World Memories)
    → Ends
        (λ r t. (t ≡ w.tables) × IsRecall now user_id w.faults w.tables r)
        (λ _ _. ⊥)
        (recall now user_id w)
unfolding recall top_facts get_summary pure
recall-Ends now user_id w =
    attempt_at R (facts_of now user_id max_injected_facts) _ w.faults w
      (λ lost. summed [] (inl (lost, refl)))
      (λ done. summed _ (inr (done, facts_of-IsTop now user_id w.tables)))
  where
    R : Result RecallResult × World Memories → Type 0
    R = Ends (λ r t. (t ≡ w.tables) × IsRecall now user_id w.faults w.tables r) (λ _ _. ⊥)

    summed :
        (facts : List ChatMemory)
        → ((fails w.faults ≡ true) × (facts ≡ []))
          ⊎ ((fails w.faults ≡ false) × IsTop now user_id w.tables facts)
        → R (
            (attempt (read (summary_of user_id)) >>= λ sum w'. (ok (recalled facts sum), w'))
              (record w { faults = later w.faults }))
    summed facts h =
        attempt_at R (summary_of user_id) _ (later w.faults) w
          (λ lost. (refl, (h, inl (lost, refl, refl)))) (λ done. (refl, (h, inr (done, refl))))

abbrev over : ℕ → Text → ChatMemory → ChatMemory
over now summary old = record old { content = summary; captured_at = now; last_seen_at = now }

abbrev shown : Option ChatMemory → Text × ℕ
shown none = ([], 0)
shown (some m) = (m.content, m.captured_at)

put-summary_of :
    (now user_id : ℕ) (summary : Text) (t : Memories)
    → summary_of user_id (put now (summary_row user_id summary) (over now summary) t)
      ≡ (summary, now)
unfolding summary_of put
put-summary_of now user_id summary t = found (first p t.rows) refl
  where
    p : ChatMemory → Bool
    p = keyed user_id summary_key_norm

    new : ChatMemory
    new = record (summary_row user_id summary) {
      id = t.next_id;
      captured_at = now;
      last_seen_at = now;
    }

    found :
        (o : Option ChatMemory)
        → first p t.rows ≡ o
        → summary_of user_id (
            let t' : Memories = elim o [
              | none ↦ record t { rows = new ∷ t.rows; next_id = suc t.next_id }
              | some old ↦ record t { rows = change p (over now summary) t.rows }
            ] in
            t')
          ≡ (summary, now)
    found none e =
        ap (λ (b : Bool). shown (if b then some new else first p t.rows)) (keyed_self new)
    found (some old) e = ap shown (first-change p (over now summary) t.rows old (λ b h. h) e)

-- GetSummary after SetSummary returns the text and the time of that call, whatever was stored before,
-- unless one of the two statements fails.
pub set_summary-get_summary :
    (now user_id : ℕ) (summary : Text) (w : World Memories)
    → Ends
        (λ r _. r ≡ (summary, now))
        (λ e _. e ≡ store_failure)
        ((set_summary now user_id summary >>= λ _. get_summary user_id) w)
unfolding set_summary get_summary
set_summary-get_summary now user_id summary w =
    bind_step (λ _ t. summary_of user_id t ≡ (summary, now))
      (λ e t. (e ≡ store_failure) × (t ≡ w.tables))
      (Ends (λ r _. r ≡ (summary, now)) (λ e _. e ≡ store_failure))
      (set_summary now user_id summary) (λ _. get_summary user_id) w
      (write_checked-Makes w (λ _ t. summary_of user_id t ≡ (summary, now)) _
        (λ u t e.
          subst (λ (t : Memories). summary_of user_id t ≡ (summary, now))
            (put_checked-put now (summary_row user_id summary) _ w.tables t u e)
            (put-summary_of now user_id summary w.tables)))
      (λ u w' h.
        Ends-map {Q = λ e t. (e ≡ store_failure) × (t ≡ w'.tables)} (get_summary user_id w')
          (λ r t (found : (r ≡ summary_of user_id w'.tables) × (t ≡ w'.tables)). found.0 ∙ h)
          (λ e t (lost : (e ≡ store_failure) × (t ≡ w'.tables)). lost.0)
          (read-Ends w' (summary_of user_id)))
      (λ e w' lost. lost.0)
