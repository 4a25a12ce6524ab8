-- ===== src/Tam/Replay.antt =====
-- A token over the runs of the TAM: issue, answer, replay (internal/tam/tam.go).
use attes_tam.Base.{◌≡◌, refl, none, some, Bytes}
use attes_tam.Model.{Error}
use attes_tam.Exec.{Result, ok, err, World, pure, attempt, if_some, if_ok, ◌>>=◌}
use attes_tam.Exec.Gives.{
  Gives, Gives-bind, Gives-pure, Gives-if_ok, Gives-attempt, Gives-keeps, Gives-weaken,
}
use attes_tam.Sqlite.Tokens
use attes_tam.Sqlite.Tokens.Spent.{
  IsSpent, IsSpentIn, insert_token-IsSpent, consume_rows-IsSpent, mark_consumed_spends,
  mark_consumed_refuses,
}
use attes_tam.Sqlite.Stable.{IsLasting}
use attes_tam.Sqlite.Frames.{tokens_frame}
use attes_tam.Teep.Message.{Message}
use attes_tam.Tam.Library.{Library, Tam}
use attes_tam.Tam.Sent.{search_sent_message_with_token}
use attes_tam.Tam.Stable.{searched_consumed}
use attes_tam.Tam.System.{Reach, Reach-keeps}
use attes_tam.Tam.Frames.{tokens_invariant}

pub IsSpent-IsLasting : (b : Bytes) → IsLasting (IsSpent b)
IsSpent-IsLasting b = tokens_frame (IsSpentIn b) (insert_token-IsSpent b) (consume_rows-IsSpent b)

search_spent :
    (t : Bytes) (v : World) (r : Result (Unit {0}))
    → (Tokens.mark_consumed t v).0 ≡ r
    → ((e : Error) × (r ≡ err e))
    → (search_sent_message_with_token (some t) v).0 ≡ ok none
unfolding search_sent_message_with_token if_some if_ok attempt pure ◌>>=◌
search_spent t v r q (e, h) = rw (q, h)

search_spends :
    (t : Bytes)
    → Gives
        (λ _. Unit {0})
        (search_sent_message_with_token (some t))
        (λ o d. (m : Message) → o ≡ some m → IsSpent t d)
unfolding search_sent_message_with_token if_some
search_spends t =
    Gives-bind (λ r d. (a : Unit) → r ≡ ok a → IsSpent t d) (attempt (Tokens.mark_consumed t)) _
      (Gives-attempt (record { give = λ w a h e. mark_consumed_spends t w e }))
      λ r.
        Gives-if_ok r _ _
          (λ a q.
            Gives-weaken (λ _. IsSpent t)
              (Gives-keeps (searched_consumed (IsSpent-IsLasting t).stable t) (λ d h. h a q))
              (λ o d h m e. h))
          (λ e q. Gives-pure none (λ d h m x. cc))

-- A token is answered once. If the search for the message of a token finds one, then after
-- whatever requests come next (with any clock, any random bytes and any driver faults) the search
-- for the same token finds none, again whatever fails in it.
pub token_answered_once :
    {Key : Type 0} (lib : Library Key) (tam : Tam Key) (t : Bytes) (w : World) (m : Message)
    → (search_sent_message_with_token (some t) w).0 ≡ ok (some m)
    → (v : World) → Reach lib tam (search_sent_message_with_token (some t) w).1.db v.db
    → (search_sent_message_with_token (some t) v).0 ≡ ok none
token_answered_once lib tam t w m found v reached =
    let spent = (search_spends t).give w (some m) tt found m refl in
    let still = Reach-keeps (tokens_invariant (IsSpentIn t) (IsSpent-IsLasting t)) reached spent in
    search_spent t v (Tokens.mark_consumed t v).0 refl (mark_consumed_refuses t v still)
