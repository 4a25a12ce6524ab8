-- ===== src/Tam/Lasting.antt =====
-- Lasting predicates and ResolveTEEPMessage (internal/tam/tam.go).
use attes_tam.Base.{Option, [], ◌∷◌, Bytes}
use attes_tam.Model.{Db}
use attes_tam.Exec.Keeps.{Keeps, Keeps-raise, Keeps-bind}
use attes_tam.Sqlite.Stable.{failure_recorded}
use attes_tam.Teep.Message.{
  MessageType, query_request, query_response, update, success, error, unknown, Message,
}
use attes_tam.Tam.Library.{Library, Tam}
use attes_tam.Tam.Authenticate.{Authentication}
use attes_tam.Tam.Resolve.{
  resolve_success, resolve_error, dispatch, resolve_authenticated, resolve_teep_message,
}
use attes_tam.Sqlite.Stable.{IsLasting}
use attes_tam.Tam.Stable.{
  rules, reports_handled, query_generated, query_response_resolved, message_authenticated,
  searched_with_token,
}

module _ {P : Db → Type 0} (s : IsLasting P) {Key : Type 0} (lib : Library Key) where
  success_resolved :
      (m : Message) (kid : Option Bytes) (sent : Option Message)
      → Keeps P (resolve_success lib m kid sent)
  unfolding resolve_success
  success_resolved m kid sent = search (rules, reports_handled, s.status_reflected) depth 10

  error_resolved :
      (m : Message) (kid : Option Bytes) (sent : Option Message)
      → Keeps P (resolve_error lib m kid sent)
  unfolding resolve_error
  error_resolved m kid sent = search (rules, reports_handled, failure_recorded s) depth 10

module _ {P : Db → Type 0} (s : IsLasting P) {Key : Type 0} (lib : Library Key)
    (tam : Tam Key) where
  dispatched :
      (type : MessageType) (b : Bytes) (m : Message) (kid : Option Bytes) (sent : Option Message)
      → Keeps P (dispatch lib tam type b m kid sent)
  unfolding dispatch
  dispatched query_response b m kid sent = query_response_resolved s.stable lib tam b m kid sent
  dispatched success b m kid sent = success_resolved s lib m kid sent
  dispatched error b m kid sent = error_resolved s lib m kid sent
  dispatched query_request b m kid sent = Keeps-raise _
  dispatched update b m kid sent = Keeps-raise _
  dispatched unknown b m kid sent = Keeps-raise _

  authenticated_resolved :
      (b : Bytes) (auth : Authentication) → Keeps P (resolve_authenticated lib tam b auth)
  unfolding resolve_authenticated
  authenticated_resolved b auth = search (rules, searched_with_token s.stable, dispatched) depth 8

  pub message_resolved : (body : Bytes) → Keeps P (resolve_teep_message lib tam body)
  unfolding resolve_teep_message
  message_resolved [] = query_generated s.stable lib tam
  message_resolved (b ∷ body) =
      Keeps-bind _ _ (message_authenticated s.stable lib (b ∷ body))
        (authenticated_resolved (b ∷ body))
