-- ===== src/Tests/Warnings.antt =====
-- The warning over the RCON client, at a concrete network.
use gobehost_operator.Prelude.{◌≡◌, refl, [], ◌∷◌, some, arith}
use gobehost_operator.Prelude.Int.{pos}
use gobehost_operator.Cluster.{Call, Api}
use gobehost_operator.Fleet.{
  send_graceful_shutdown, first_message, rcon_timeout, headless_host, get_rcon_password,
}
use gobehost_operator.Fleet.OverRcon.{Network, over_network, warning_unheard}
use gobehost_operator.Tests.Samples.{sample_server, warning, server_with}
use gobehost_operator.Tests.Sessions.{answering, answering-IsUp}

-- Every server answers every packet by one with an empty body.
abbrev silent : Network
silent = record {
  reach = λ log host port. answering [];
  bytes = λ s. 112 ∷ 119 ∷ [];
  text = λ b. "";
}

abbrev over_silent : Api
over_silent = record (server_with []) {
  send_command =
      λ log host port password command timeout. over_network silent log host port password command;
}

warning_unheard_example : send_graceful_shutdown over_silent (some warning) sample_server [] ≡ (
  tt,
  Call.send_command
        (headless_host sample_server)
        (pos 25575)
        "secret"
        (first_message 3)
        (rcon_timeout 3)
      ∷ [],
)
unfolding get_rcon_password
warning_unheard_example =
    warning_unheard over_silent silent warning sample_server []
      (λ log host port password command timeout. refl)
      (λ log host port. record {
        up = answering-IsUp [];
        id = pos 1;
        int32 = omega arith;
        type = pos 0;
        later = λ password. [];
        answer = λ password. refl;
      })
      refl refl
