-- ===== src/Elf/Tests.antt =====
-- kernel/proc/exec_elf.c
