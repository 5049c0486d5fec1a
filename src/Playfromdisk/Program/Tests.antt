-- ===== src/Playfromdisk/Program/Tests.antt =====
-- examples/playfromdisk/main.go on the codes of two videos.
use roq.Common.{◌≡◌, refl, none, some}
use roq.Playfromdisk.Program.{vp9, payloader_of}

vp9_video : payloader_of "VP90" ≡ some vp9
vp9_video = refl

other_video : payloader_of "H264" ≡ none
other_video = refl
