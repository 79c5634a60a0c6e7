-- ===== src/Application/Events.antt =====
-- The step that the use cases of crates/application share: an event with a generated identifier.
use transit_guard.Base.{◌≡◌, refl, String, List}
use transit_guard.Base.Result.{map_err, map_err-eq-ok}
use transit_guard.Domain.Event.{
  DomainEventPayload, DomainEvent, DomainEventTime, AggregateVersion, aggregate_of, new_event,
}
use transit_guard.Domain.Event.Payloads.{new_event_iff}
use transit_guard.Application.Ports.{Ports, ApplicationError}
use transit_guard.Application.Effect.{App, ◌>>=◌, draw, or_rollback, pure_result}
use transit_guard.Application.Triples.{Operation, Triple, Transactional, bind_triple, weaken_triple}
use transit_guard.Application.Triples.Steps.{Durable, Open, event_id_triple, check_triple}

-- `match DomainEvent::new(self.event_id_generator.generate(), …) { Ok(event) => event, Err(_) => … }`.
unfoldable pub record_event {ℓ} :
    {W : Type ℓ}
    → Ports W
    → String
    → String
    → AggregateVersion
    → DomainEventTime
    → DomainEventPayload
    → App W DomainEvent
record_event ports operation reason version occurred_at payload = do
  event_id ← draw ports.generate_event_id
  or_rollback ports (
      pure_result (
        map_err (λ _. ApplicationError.conflict operation reason)
          (new_event event_id version occurred_at payload)))

-- The event carries what it was made from.
pub record Records (version : AggregateVersion) (occurred_at : DomainEventTime)
    (payload : DomainEventPayload) (event : DomainEvent) : Type 0 where
  pub aggregate : event.aggregate_id ≡ aggregate_of payload
  pub version_given : event.aggregate_version ≡ version
  pub time_given : event.occurred_at ≡ occurred_at
  pub payload_given : event.payload ≡ payload

pub record_event_triple {ℓ} :
    {W : Type ℓ} {ports : Ports W} (laws : Transactional ports) (log : List (List Operation))
    {ops : List Operation} (operation reason : String) (version : AggregateVersion)
    (time : DomainEventTime) (payload : DomainEventPayload)
    → Triple
        (Open laws log ops)
        (record_event ports operation reason version time payload)
        (λ event w. Open laws log ops w × Records version time payload event)
        (Durable laws log)
unfolding record_event
record_event_triple laws log {ops = ops} operation reason version time payload =
    bind_triple (event_id_triple laws log) (λ event_id.
      weaken_triple _ (λ event w. Open laws log ops w × Records version time payload event)
        (λ event w p.
          let same =
            ((new_event_iff event_id version time payload event).0 (map_err-eq-ok _ _ p.1)).1 in
          (
            p.0,
            record {
              aggregate = rw same refl;
              version_given = rw same refl;
              time_given = rw same refl;
              payload_given = rw same refl;
            },
          ))
        (check_triple laws log _))
