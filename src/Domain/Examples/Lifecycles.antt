-- ===== src/Domain/Examples/Lifecycles.antt =====
-- A card and a reader (crates/domain/src/credential.rs and equipment.rs) under calls.
use transit_guard.Base.{◌≡◌, refl, ◌↔◌, false, some, none, List, [], ◌∷◌}
use transit_guard.Base.Result.{ok, err}
use transit_guard.Base.Machine.{run}
use transit_guard.Domain.Credential
use transit_guard.Domain.Credential.{
  FareCredential, FareCredentialKind, FareCredentialStatus, FareCredentialError, RevocationReason,
  is_usable,
}
use transit_guard.Domain.Credential.Lifecycle.{
  CredentialOp, run_credential-IsConsistent, run_credential_terminal, credential_step-ok_iff,
  credential_step_atomic,
}
use transit_guard.Domain.Equipment
use transit_guard.Domain.Equipment.{
  ReaderEquipment, ReaderEquipmentStatus, ReaderEquipmentError, ReaderDisablementReason,
  ReaderRevocationReason, can_accept_fare_presentations, may_authenticate_to_backend,
}
use transit_guard.Domain.Equipment.Lifecycle.{
  EquipmentOp, run_equipment-IsConsistent, run_equipment_terminal, equipment_step-ok_iff,
}

abbrev credential_calls : List CredentialOp
credential_calls =
    CredentialOp.activate_op
    ∷ CredentialOp.revoke_op RevocationReason.reported_lost
    ∷ CredentialOp.reactivate_op
    ∷ []

run_credential-IsConsistent_example : Credential.Lifecycle.IsConsistent (
    run Credential.Lifecycle.step credential_calls
      (Credential.new_pending 3 1 FareCredentialKind.card))
run_credential-IsConsistent_example =
    run_credential-IsConsistent credential_calls 3 1 FareCredentialKind.card

-- A card that was reported stolen.
abbrev stolen : FareCredential
stolen = record {
  id = 3;
  transit_account_id = 1;
  kind = FareCredentialKind.card;
  status = FareCredentialStatus.revoked;
  revocation_reason = some RevocationReason.reported_stolen;
  replacement_id = none;
}

run_credential_terminal_example :
    (run Credential.Lifecycle.step credential_calls stolen ≡ stolen)
    × (is_usable (run Credential.Lifecycle.step credential_calls stolen) ≡ false)
run_credential_terminal_example = run_credential_terminal credential_calls stolen refl

credential_step-ok_iff_example :
    (((Credential.Lifecycle.step (CredentialOp.replace_op 4) stolen).0 ≡ ok tt)
      ↔ Credential.Lifecycle.Allowed (CredentialOp.replace_op 4) stolen)
    × ((Credential.Lifecycle.step (CredentialOp.replace_op 4) stolen).0 ≡ ok tt
        → ((Credential.Lifecycle.step (CredentialOp.replace_op 4) stolen).1.status
            ≡ FareCredentialStatus.replaced)
          × ((Credential.Lifecycle.step (CredentialOp.replace_op 4) stolen).1.id ≡ 3)
          × ((Credential.Lifecycle.step (CredentialOp.replace_op 4) stolen).1.transit_account_id
              ≡ 1)
          × ((Credential.Lifecycle.step (CredentialOp.replace_op 4) stolen).1.kind
              ≡ FareCredentialKind.card))
credential_step-ok_iff_example = credential_step-ok_iff (CredentialOp.replace_op 4) stolen

abbrev equipment_calls : List EquipmentOp
equipment_calls =
    EquipmentOp.activate_op
    ∷ EquipmentOp.mark_offline_op
    ∷ EquipmentOp.disable_op ReaderDisablementReason.lost_equipment
    ∷ EquipmentOp.rotate_op 9
    ∷ []

run_equipment-IsConsistent_example :
    Equipment.Lifecycle.IsConsistent
      (run Equipment.Lifecycle.step equipment_calls (Equipment.new_pending 5 6))
run_equipment-IsConsistent_example = run_equipment-IsConsistent equipment_calls 5 6

abbrev revoked_reader : ReaderEquipment
revoked_reader = record {
  id = 5;
  identity = record { reader_id = 5; key_id = 6 };
  status = ReaderEquipmentStatus.revoked;
  disablement_reason = none;
  revocation_reason = some ReaderRevocationReason.credential_exposure;
}

run_equipment_terminal_example :
    (run Equipment.Lifecycle.step equipment_calls revoked_reader ≡ revoked_reader)
    × (can_accept_fare_presentations (run Equipment.Lifecycle.step equipment_calls revoked_reader)
        ≡ false)
    × (may_authenticate_to_backend (run Equipment.Lifecycle.step equipment_calls revoked_reader)
        ≡ false)
run_equipment_terminal_example = run_equipment_terminal equipment_calls revoked_reader refl

abbrev pending_reader : ReaderEquipment
pending_reader = record {
  id = 5;
  identity = record { reader_id = 5; key_id = 6 };
  status = ReaderEquipmentStatus.pending_registration;
  disablement_reason = none;
  revocation_reason = none;
}

equipment_step-ok_iff_example :
    (((Equipment.Lifecycle.step EquipmentOp.mark_offline_op pending_reader).0 ≡ ok tt)
      ↔ Equipment.Lifecycle.Allowed EquipmentOp.mark_offline_op
          ReaderEquipmentStatus.pending_registration)
    × ((Equipment.Lifecycle.step EquipmentOp.mark_offline_op pending_reader).0 ≡ ok tt
        → (Equipment.Lifecycle.step EquipmentOp.mark_offline_op pending_reader).1.status
          ≡ ReaderEquipmentStatus.offline)
    × ((x : ReaderEquipmentError)
        → (Equipment.Lifecycle.step EquipmentOp.mark_offline_op pending_reader).0 ≡ err x
        → (Equipment.Lifecycle.step EquipmentOp.mark_offline_op pending_reader).1 ≡ pending_reader)
    × ((Equipment.Lifecycle.step EquipmentOp.mark_offline_op pending_reader).0 ≡ ok tt
        → Equipment.Lifecycle.step EquipmentOp.mark_offline_op
            (Equipment.Lifecycle.step EquipmentOp.mark_offline_op pending_reader).1
          ≡ (ok tt, (Equipment.Lifecycle.step EquipmentOp.mark_offline_op pending_reader).1))
equipment_step-ok_iff_example = equipment_step-ok_iff EquipmentOp.mark_offline_op pending_reader
