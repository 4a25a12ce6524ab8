-- ===== src/Tam/Challenged.antt =====
-- A challenge over the runs of the TAM: issue, answer, replay (internal/tam/tam.go).
use attes_tam.Base.{◌≡◌, refl, true, not, ◌&&◌, none, some, Bytes, bytes_eq, any}
use attes_tam.Model.{Error, Db}
use attes_tam.Exec.{Result, ok, err, World, pure, attempt, if_some, if_ok, ◌>>=◌}
use attes_tam.Exec.Gives.{Gives, Gives-bind, Gives-pure, Gives-if_ok, Gives-attempt}
use attes_tam.Sqlite.Challenges.Spent.{
  IsSpent, IsSpentIn, insert_challenge-IsSpent, consume_rows-IsSpent, mark_consumed_spends,
  mark_consumed_refuses, mark_consumed-Gives,
}
use attes_tam.Sqlite.Challenges
use attes_tam.Sqlite.Stable.{IsLasting}
use attes_tam.Sqlite.Frames.{challenges_frame}
use attes_tam.Teep.Message.{Message}
use attes_tam.Tam.Library.{Library, Tam}
use attes_tam.Tam.Sent.{search_sent_message_with_challenge}
use attes_tam.Tam.Stable.{searched_consumed_challenge}
use attes_tam.Tam.System.{Reach, Reach-keeps}
use attes_tam.Tam.Frames.{challenges_invariant}

pub IsSpent-IsLasting : (b : Bytes) → IsLasting (IsSpent b)
IsSpent-IsLasting b =
    challenges_frame (IsSpentIn b) (insert_challenge-IsSpent b) (consume_rows-IsSpent b)

search_spent :
    (t : Bytes) (v : World) (r : Result (Unit {0}))
    → (Challenges.mark_consumed t v).0 ≡ r
    → ((e : Error) × (r ≡ err e))
    → (search_sent_message_with_challenge (some t) v).0 ≡ ok none
unfolding search_sent_message_with_challenge if_some if_ok attempt pure ◌>>=◌
search_spent t v r q (e, h) = rw (q, h)

-- An unconsumed row has the challenge.
abbrev pub IsOpen : Bytes → Db → Type 0
IsOpen t d = any (λ c. bytes_eq c.challenge t && not c.consumed) d.challenges.rows ≡ true

-- A search that finds a message consumes a challenge that was open.
pub search_spends :
    (t : Bytes) (d₀ : Db)
    → Gives
        (λ d. d ≡ d₀)
        (search_sent_message_with_challenge (some t))
        (λ o d. (m : Message) → o ≡ some m → IsOpen t d₀ × IsSpent t d)
unfolding search_sent_message_with_challenge if_some
search_spends t d₀ =
    Gives-bind (λ r d. (a : Unit) → r ≡ ok a → IsOpen t d₀ × IsSpent t d)
      (attempt (Challenges.mark_consumed t)) _
      (Gives-attempt (record {
        give = λ w a h e. (((mark_consumed-Gives t d₀).give w a h e).0, mark_consumed_spends t w e);
      }))
      λ r.
        Gives-if_ok r _ _
          (λ a q. record {
            give = λ w o h e m found. (
              (h a q).0,
              (searched_consumed_challenge (IsSpent-IsLasting t).stable t).keep w (h a q).1,
            );
          })
          (λ e q. Gives-pure none (λ d h m x. cc))

-- A challenge is answered once. If the search for the message of a challenge finds one, then after
-- whatever requests come next (with any clock, any random bytes and any driver faults) the search
-- for the same challenge finds none, again whatever fails in it.
pub challenge_answered_once :
    {Key : Type 0} (lib : Library Key) (tam : Tam Key) (t : Bytes) (w : World) (m : Message)
    → (search_sent_message_with_challenge (some t) w).0 ≡ ok (some m)
    → (v : World) → Reach lib tam (search_sent_message_with_challenge (some t) w).1.db v.db
    → (search_sent_message_with_challenge (some t) v).0 ≡ ok none
challenge_answered_once lib tam t w m found v reached =
    let (_, spent) = (search_spends t w.db).give w (some m) refl found m refl in
    let still =
      Reach-keeps (challenges_invariant (IsSpentIn t) (IsSpent-IsLasting t)) reached spent in
    search_spent t v (Challenges.mark_consumed t v).0 refl (mark_consumed_refuses t v still)
