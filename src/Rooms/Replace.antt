-- ===== src/Rooms/Replace.antt =====
-- `replace_text` gives the room the new text.
