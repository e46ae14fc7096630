-- ===== src/AuthServer/FlowTables/Descriptors.antt =====
-- `flow_descriptors` and `all_flows`, with the names of the flows and their diagrams.
use volta_gateway.Prelude.{List, [], ◌∷◌, Text}
use volta_gateway.AuthCore.Descriptor.{FlowDescriptor}
use volta_gateway.AuthServer.FlowTables.{FlowView, descriptor, render}
use volta_gateway.AuthServer.FlowTables.First.{
  oidc_view, oidc_external, passkey_view, passkey_external, mfa_view, mfa_external, invite_view,
  invite_external,
}
use volta_gateway.AuthServer.FlowTables.Second.{
  registration_view, registration_external, email_verification_view, email_verification_external,
  password_reset_view, password_reset_external, mfa_setup_view, mfa_setup_external,
  login_challenge_view, login_challenge_external, device_grant_view, device_grant_external,
}

unfoldable pub flow_descriptors : List FlowDescriptor
flow_descriptors =
    descriptor oidc_view oidc_external
    ∷ descriptor passkey_view passkey_external
    ∷ descriptor mfa_view mfa_external
    ∷ descriptor invite_view invite_external
    ∷ descriptor registration_view registration_external
    ∷ descriptor email_verification_view email_verification_external
    ∷ descriptor password_reset_view password_reset_external
    ∷ descriptor mfa_setup_view mfa_setup_external
    ∷ descriptor login_challenge_view login_challenge_external
    ∷ descriptor device_grant_view device_grant_external
    ∷ []

-- The diagram of a view, beside which its other fields are shown as they are.
unfoldable pub build_flow_view : FlowView → FlowView × Text
build_flow_view f = (f, render f.initial f.terminals f.edges)

unfoldable pub all_flows : List (FlowView × Text)
all_flows =
    build_flow_view oidc_view
    ∷ build_flow_view passkey_view
    ∷ build_flow_view mfa_view
    ∷ build_flow_view invite_view
    ∷ build_flow_view registration_view
    ∷ build_flow_view email_verification_view
    ∷ build_flow_view password_reset_view
    ∷ build_flow_view mfa_setup_view
    ∷ build_flow_view login_challenge_view
    ∷ build_flow_view device_grant_view
    ∷ []
