-- ===== src/Proto/Ajax/Sending/Calls.antt =====
-- The method that a request is sent with.
use sd.Common.{◌++◌}
use sd.Proto.Text.{Text, codes}

-- The parameter that carries the method.
abbrev pub method_pair : Text → Text
method_pair method = codes "_method=" ++ method
