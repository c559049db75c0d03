-- ===== src/Client/Lines.antt =====
-- client.go, `getConfigServer`: a list of servers, one to a line, and the choice among them.
use lynx_apollo.Base.{◌≢◌, Text, [], ◌∷◌, All}

abbrev pub line_feed : Text
line_feed = 10 ∷ []

-- A text without a line feed.
abbrev pub OneLine : Text → Type 0
OneLine t = All (λ c. c ≢ 10) t
