-- ===== src/Options/Tests.antt =====
-- Tests of options.go.
use roq.Common.{refl, List, [], ◌∷◌}
use roq.Common.Int.{pos}
use roq.Options.{default_config, new_session_config, apply_all, with_receive_buffer_size}
use roq.Options.Settings.{Setting, receive_buffer_size, ConfigValid, new_session_config-ConfigValid}

abbrev sized : List Setting
sized = receive_buffer_size (pos 8) ∷ []

new_session_config-ConfigValid_example :
    ConfigValid (record default_config { receive_buffer_size = pos 8 })
unfolding new_session_config apply_all with_receive_buffer_size
new_session_config-ConfigValid_example =
    new_session_config-ConfigValid sized (record default_config { receive_buffer_size = pos 8 })
      refl
