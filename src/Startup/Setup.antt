-- ===== src/Startup/Setup.antt =====
-- wizard.go with main.go: the role of a node that the wizard has set up.
use plv.Go.Text.{Text}
use plv.Go.Time.{Time}
