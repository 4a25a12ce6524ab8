-- ===== src/Tests/Everything.antt =====
-- Everything that computes, for the runs.
use attes_tam.Base
use attes_tam.Exec

-- A proof `unfolding everything` computes the whole program.
unfoldable pub everything : Unit {0}
unfolding attes_tam.Base.bytes_eq attes_tam.Base.find attes_tam.Base.any attes_tam.Base.update_where
    attes_tam.Base.select attes_tam.Exec.pure attes_tam.Exec.raise attes_tam.Exec.lift
    attes_tam.Exec.attempt attes_tam.Exec.run_statement attes_tam.Exec.statement
    attes_tam.Exec.query attes_tam.Exec.guard attes_tam.Exec.spend_random attes_tam.Exec.time_now
    attes_tam.Exec.if_some attes_tam.Exec.if_ok attes_tam.Exec.◌>>=◌ attes_tam.Exec.transaction
    attes_tam.Exec.begin_and_commit attes_tam.Exec.boundary attes_tam.Model.insert
    attes_tam.Rats.Backend.verifier_backend_for_attestation_payload_format
    attes_tam.Rats.Backend.verifier_backend_from_payload_format
    attes_tam.Rats.Backend.new_verifier_for_backend attes_tam.Rats.Claims.attach_attested_claims
    attes_tam.Rats.Claims.populate_from_eat attes_tam.Rats.Quote.slice
    attes_tam.Rats.Quote.quote5_report_data attes_tam.Rats.Quote.extract_quote_report_data
    attes_tam.Rats.Qvl.classify_intel_qvl_result
    attes_tam.Rats.Qvl.is_intel_qvl_result_affirming_value attes_tam.Sqlite.Agents.get_all
    attes_tam.Sqlite.Agents.find_by_kid attes_tam.Sqlite.Agents.find_by_kid_ignore_revoked
    attes_tam.Sqlite.Agents.insert_agent attes_tam.Sqlite.Agents.create
    attes_tam.Sqlite.Agents.revoke_rows attes_tam.Sqlite.Agents.revoke_by_kid
    attes_tam.Sqlite.Challenges.insert_challenge attes_tam.Sqlite.Challenges.create
    attes_tam.Sqlite.Challenges.find_by_challenge attes_tam.Sqlite.Challenges.find_by_id
    attes_tam.Sqlite.Challenges.consume_rows attes_tam.Sqlite.Challenges.mark_consumed
    attes_tam.Sqlite.Challenges.generate_round attes_tam.Sqlite.Challenges.generate_from
    attes_tam.Sqlite.Challenges.generate_unique_challenge attes_tam.Sqlite.Manifests.find_by_id
    attes_tam.Sqlite.Manifests.latest_from attes_tam.Sqlite.Manifests.latest_of
    attes_tam.Sqlite.Manifests.find_latest_by_trusted_component_id
    attes_tam.Sqlite.Manifests.max_sequence_number attes_tam.Sqlite.Manifests.latest_rows
    attes_tam.Sqlite.Manifests.find_latest_all attes_tam.Sqlite.Manifests.insert_manifest
    attes_tam.Sqlite.Manifests.create attes_tam.Sqlite.Parties.find_device_by_ueid
    attes_tam.Sqlite.Parties.insert_device attes_tam.Sqlite.Parties.create_device
    attes_tam.Sqlite.Parties.insert_entity attes_tam.Sqlite.Parties.create_entity
    attes_tam.Sqlite.Parties.find_entity_by_id attes_tam.Sqlite.Parties.find_entity_by_name
    attes_tam.Sqlite.Parties.insert_signing_key attes_tam.Sqlite.Parties.create_signing_key
    attes_tam.Sqlite.Parties.find_signing_key_by_kid attes_tam.Sqlite.SentQueries.insert_query
    attes_tam.Sqlite.SentQueries.create attes_tam.Sqlite.SentQueries.create_with_token
    attes_tam.Sqlite.SentQueries.create_with_challenge attes_tam.Sqlite.SentQueries.find_by_token
    attes_tam.Sqlite.SentQueries.find_by_challenge attes_tam.Sqlite.SentQueries.find_by_id
    attes_tam.Sqlite.SentUpdates.insert_update attes_tam.Sqlite.SentUpdates.create
    attes_tam.Sqlite.SentUpdates.insert_sent_manifest attes_tam.Sqlite.SentUpdates.link_manifest
    attes_tam.Sqlite.SentUpdates.link_manifests attes_tam.Sqlite.SentUpdates.create_with_token
    attes_tam.Sqlite.SentUpdates.find_by_token_id attes_tam.Sqlite.SentUpdates.find_by_id
    attes_tam.Sqlite.SentUpdates.manifests_named attes_tam.Sqlite.SentUpdates.manifests_sent
    attes_tam.Sqlite.SentUpdates.updates_of_token
    attes_tam.Sqlite.SentUpdates.find_with_manifests_by_token attes_tam.Sqlite.Statuses.look_up
    attes_tam.Sqlite.Statuses.is_of_component attes_tam.Sqlite.Statuses.mark_deleted
    attes_tam.Sqlite.Statuses.insert_holding attes_tam.Sqlite.Statuses.insert_report
    attes_tam.Sqlite.Statuses.reflect attes_tam.Sqlite.Statuses.reflect_manifest_success
    attes_tam.Sqlite.Statuses.record_manifest_processing_failure
    attes_tam.Sqlite.Statuses.first_of_partition attes_tam.Sqlite.Statuses.shown
    attes_tam.Sqlite.Statuses.overviews attes_tam.Sqlite.Statuses.status_of
    attes_tam.Sqlite.Statuses.get_agent_status attes_tam.Sqlite.Statuses.update_agent_updated_at
    attes_tam.Sqlite.Statuses.Reflected.count attes_tam.Sqlite.Tokens.insert_token
    attes_tam.Sqlite.Tokens.create attes_tam.Sqlite.Tokens.find_by_token
    attes_tam.Sqlite.Tokens.find_by_id attes_tam.Sqlite.Tokens.consume_rows
    attes_tam.Sqlite.Tokens.mark_consumed attes_tam.Sqlite.Tokens.generate_round
    attes_tam.Sqlite.Tokens.generate_from attes_tam.Sqlite.Tokens.generate_unique_token
    attes_tam.Tam.Attest.is_affirming attes_tam.Tam.Attest.requires_attested_agent_key
    attes_tam.Tam.Attest.submit_attestation_payload attes_tam.Tam.Attest.attested_claims
    attes_tam.Tam.Attest.adopt_key attes_tam.Tam.Attest.verify_affirmed
    attes_tam.Tam.Attest.verify_attestation_payload attes_tam.Tam.Authenticate.get_kid
    attes_tam.Tam.Authenticate.check_signature_with_kid
    attes_tam.Tam.Authenticate.try_authenticate_teep_message
    attes_tam.Tam.Authenticate.verify_cose_signature
    attes_tam.Tam.Bundle.decode_sgx_quote3_teep_bundle
    attes_tam.Tam.Bundle.verify_sgx_quote_report_data_binding attes_tam.Tam.Bundle.populate_from_sgx
    attes_tam.Tam.Keyring.find_device_id attes_tam.Tam.Keyring.add_agent
    attes_tam.Tam.Keyring.set_teep_agent_key attes_tam.Tam.Keyring.get_teep_agent_key
    attes_tam.Tam.Keyring.get_entity_key attes_tam.Tam.Keyring.revoke_teep_agent_key
    attes_tam.Tam.Repository.get_manifest attes_tam.Tam.Repository.get_manifests
    attes_tam.Tam.Repository.check_existing attes_tam.Tam.Repository.store_envelope
    attes_tam.Tam.Repository.set_envelope attes_tam.Tam.Resolve.reports_success
    attes_tam.Tam.Resolve.handle_report attes_tam.Tam.Resolve.handle_reports
    attes_tam.Tam.Resolve.resolve_success attes_tam.Tam.Resolve.resolve_error
    attes_tam.Tam.Resolve.respond attes_tam.Tam.Resolve.respond_attested
    attes_tam.Tam.Resolve.resolve_query_response attes_tam.Tam.Resolve.dispatch
    attes_tam.Tam.Resolve.resolve_authenticated attes_tam.Tam.Resolve.resolve_teep_message
    attes_tam.Tam.Sent.or_nil attes_tam.Tam.Sent.or_fatal attes_tam.Tam.Sent.generate_token
    attes_tam.Tam.Sent.generate_challenge attes_tam.Tam.Sent.save_sent_query_request
    attes_tam.Tam.Sent.save_sent_update attes_tam.Tam.Sent.search_consumed_challenge
    attes_tam.Tam.Sent.search_sent_message_with_challenge attes_tam.Tam.Sent.search_sent_update
    attes_tam.Tam.Sent.search_consumed attes_tam.Tam.Sent.search_sent_message_with_token
    attes_tam.Tam.Sent.cose_sign1_sign attes_tam.Tam.Sent.send_query_request
    attes_tam.Tam.Sent.generate_query_request
    attes_tam.Tam.Sent.generate_query_request_with_attestation attes_tam.Tam.Status.from_model
    attes_tam.Tam.Status.or_other attes_tam.Tam.Status.get_agent_status
    attes_tam.Tam.Status.add_status_key attes_tam.Tam.Status.status_keys
    attes_tam.Tam.Status.get_agent_statuses attes_tam.Tam.Update.add_component
    attes_tam.Tam.Update.components_of attes_tam.Tam.Update.choose_manifest
    attes_tam.Tam.Update.choose_manifests attes_tam.Tam.Update.component_set
    attes_tam.Tam.Update.send_update attes_tam.Tam.Update.process_query_response
    attes_tam.Teep.Items.request_data_item attes_tam.Teep.Items.attestation_requested
    attes_tam.Teep.Items.tc_list_requested attes_tam.Teep.Items.extensions_requested
    attes_tam.Teep.Items.suit_reports_requested attes_tam.Teep.Message.marshal_as
    attes_tam.Teep.Message.marshal attes_tam.Teep.Message.unmarshal_as
    attes_tam.Teep.Message.unmarshal_items attes_tam.Teep.Message.unmarshal
    attes_tam.Teep.Report.unmarshal_result attes_tam.Text.lower attes_tam.Text.to_lower
    attes_tam.Text.equal_fold attes_tam.Text.has_prefix attes_tam.Text.trim_left
    attes_tam.Text.trim_right attes_tam.Text.trim_space attes_tam.Server.read_body
    attes_tam.Server.Handlers.tam_over_http attes_tam.Server.Handlers.list_manifests
    attes_tam.Server.Handlers.get_agent_list attes_tam.Server.Handlers.add_status
    attes_tam.Server.Handlers.status_list attes_tam.Server.Handlers.get_agent_status_of
    attes_tam.Server.Register.register attes_tam.Server.Register.register_manifest
    attes_tam.Server.Register.register_envelope attes_tam.Server.Register.add_tc_manifest
    attes_tam.Server.Register.serve attes_tam.Suit.skip_tag attes_tam.Suit.extract_kid
    attes_tam.Suit.nested attes_tam.Suit.read_wrapper attes_tam.Suit.unmarshal_wrapper
    attes_tam.Suit.unmarshal_envelope attes_tam.Suit.check_digest attes_tam.Suit.check_block
    attes_tam.Suit.verify attes_tam.Text.has_suffix attes_tam.Text.contains attes_tam.Text.hex
    attes_tam.Text.upper attes_tam.Text.to_upper attes_tam.Text.split attes_tam.Rats.Json.member
    attes_tam.Rats.Response.should_send_update attes_tam.Rats.Response.submod_of
    attes_tam.Rats.Response.extract_ear_status attes_tam.Rats.Response.select_update_artifact
    attes_tam.Rats.Response.decode_base64_string attes_tam.Rats.Response.pretty_evidence
    attes_tam.Rats.Response.decode_jwt_section attes_tam.Rats.Response.pretty_result_jwt
    attes_tam.Rats.Response.decode_attestation_response attes_tam.Rats.Client.new_verifier_client
    attes_tam.Rats.Client.create_session attes_tam.Rats.Client.submit_payload
    attes_tam.Rats.Client.process attes_tam.Rats.Intel.Chain.extract_cert_data
    attes_tam.Rats.Intel.Chain.extract_pck_cert_chain attes_tam.Rats.Intel.Certificates.last_from
    attes_tam.Rats.Intel.Certificates.last_certificate_from_pem
    attes_tam.Rats.Intel.Certificates.collect_from
    attes_tam.Rats.Intel.Certificates.pem_certificates
    attes_tam.Rats.Intel.Certificates.parse_quote_certificates
    attes_tam.Rats.Intel.Certificates.ca_of_issuer
    attes_tam.Rats.Intel.Certificates.extract_quote_pck_ca
    attes_tam.Rats.Intel.NextUpdate.nearest_of attes_tam.Rats.Intel.NextUpdate.parse_crl_next_update
    attes_tam.Rats.Intel.NextUpdate.parse_json_next_update
    attes_tam.Rats.Intel.NextUpdate.collateral_next_update
    attes_tam.Rats.Intel.NextUpdate.collateral_expiry attes_tam.Rats.Intel.Pcs.is_intel_pcs_url
    attes_tam.Rats.Intel.Pcs.fmspc_query_value attes_tam.Rats.Intel.Pcs.fmspc_cache_key_value
    attes_tam.Rats.Intel.Pcs.new_pcs_client attes_tam.Rats.Intel.Pcs.extract_fmspc
    attes_tam.Rats.Intel.Pcs.decode_pcs_header attes_tam.Rats.Intel.Pcs.get_absolute
    attes_tam.Rats.Intel.Pcs.get attes_tam.Rats.Intel.Pcs.fetch_pck_crl
    attes_tam.Rats.Intel.Pcs.fetch_tcb_info attes_tam.Rats.Intel.Pcs.fetch_qe_identity
    attes_tam.Rats.Intel.Pcs.root_ca_crl_url attes_tam.Rats.Intel.Pcs.fetch_root_ca_crl
    attes_tam.Rats.Intel.Pcs.fetch attes_tam.Rats.Intel.Cache.valid_at
    attes_tam.Rats.Intel.Cache.cache_key attes_tam.Rats.Intel.Cache.path_for_quote
    attes_tam.Rats.Intel.Cache.new_cache_entry attes_tam.Rats.Intel.Cache.get
    attes_tam.Rats.Intel.Cache.encoded_entry attes_tam.Rats.Intel.Cache.put
    attes_tam.Rats.Intel.Verifier.with_terminating_nul attes_tam.Rats.Intel.Verifier.crl_for_native
    attes_tam.Rats.Intel.Verifier.native_collateral
    attes_tam.Rats.Intel.Verifier.new_intel_qvl_verifier
    attes_tam.Rats.Intel.Verifier.quote_collateral attes_tam.Rats.Intel.Verifier.verified
    attes_tam.Rats.Intel.Verifier.process attes_tam.Tam.Resolver.new_verifier
    attes_tam.Tam.Resolver.resolve attes_tam.Demo.Seed.ensure_entity
    attes_tam.Demo.Seed.ensure_manifest_signing_key
    attes_tam.Demo.Seed.default_developer_manifest_key attes_tam.Demo.Seed.seed_entities
    attes_tam.Demo.Seed.seed_hello_text_manifest attes_tam.Demo.Seed.ensure_device
    attes_tam.Demo.Seed.ensure_agent attes_tam.Demo.Seed.ensure_status
    attes_tam.Demo.Seed.seed_agent_scenario attes_tam.Tam.Seed.ensure_trusted_demo_agent_key
    attes_tam.Tam.Seed.seed_demo_entities attes_tam.Tam.Seed.seed_demo_agent
    attes_tam.Tam.Seed.seed_demo_data attes_tam.Tam.Construct.new_tam_from_key_bytes_and
    attes_tam.Tam.Construct.new_tam_from_key_bytes
    attes_tam.Tam.Construct.new_tam_from_key_bytes_with_ra_config attes_tam.Tam.Construct.key_file
    attes_tam.Tam.Construct.new_tam attes_tam.Tam.Construct.new_tam_with_ra_config
    attes_tam.Tam.Construct.new_demo_tam attes_tam.Tam.Construct.new_demo_tam_with_ra_config
    attes_tam.Config.parse_level attes_tam.Config.resolve_log_level attes_tam.Config.tam_config
    attes_tam.Server.Start.init_db attes_tam.Server.Start.new_server attes_tam.Server.Start.start
    attes_tam.Console.Api.trim_slashes attes_tam.Console.Api.decode_cbor_component_id
    attes_tam.Console.Api.components_of attes_tam.Console.Api.agents_of
    attes_tam.Console.Api.decode_agents_from_cbor attes_tam.Console.Api.decode_manifests_from_cbor
    attes_tam.Console.Api.read_cbor attes_tam.Console.Api.fetch_tam_list_agents
    attes_tam.Console.Api.fetch_tam_get_agent_status attes_tam.Console.Api.fetch_tam_manifests
    attes_tam.Console.Api.post_tam_manifest attes_tam.Console.Devices.ordered_kids
    attes_tam.Console.Devices.last_updated attes_tam.Console.Devices.store_agents
    attes_tam.Console.Devices.agents_cached attes_tam.Console.Devices.fetch_tam_devices
    attes_tam.Console.Handlers.validate_config attes_tam.Console.Handlers.checked
    attes_tam.Console.Handlers.handle_list_agents
    attes_tam.Console.Handlers.handle_list_manifests_service
    attes_tam.Console.Handlers.handle_register_manifest
everything = tt
